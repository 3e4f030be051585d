-- ===== src/Privproc/Exchange.antt =====
-- A change of address from the callback in src/relayd.c through the privileged process and back.
use miredo.Prelude.Word.{Endian, little, big, host16, host32}
use miredo.Prelude.{
  ltb, ℕ, zero, suc, ◌^◌, ◌<◌, ◌≤◌, ◌≡◌, refl, sym, ap, ◌∙◌, length, replicate, true, false, some,
  List, [], ◌∷◌, ◌++◌, arith,
}
use miredo.Net.Addr.{s6_addr, addr_at, is_multicast}
use miredo.Packets.Headers.{Fits, word16, word32}
use miredo.Privproc.Ipc.{Sent, Received, Passed, miredo_send, miredo_recv}
use miredo.Privproc.Ipc.Delivery.{arrived, Within, IsReceived, miredo_recv-miredo_send}
use miredo.Privproc.{
  stopped, preceded, waits, Abi, Settings, settings_bytes, settings_at, settings_size, int_bytes,
  int_at, Configured, configure_tunnel, receive_result, Environment, Ntop, variables_of, Round,
  Served, is_sane, run_hook, answer, do_round, serve,
}

host16_twice : (e : Endian) (w : ℕ) → w < 2 ^ 16 → host16 e (host16 e w) ≡ w
unfolding host16
host16_twice little w h = omega arith
host16_twice big w h = refl

host16_fits : (e : Endian) (w : ℕ) → w < 2 ^ 16 → host16 e w < 2 ^ 16
unfolding host16
host16_fits little w h = omega arith
host16_fits big w h = h

host32_twice : (e : Endian) (w : ℕ) → w < 2 ^ 32 → host32 e (host32 e w) ≡ w
unfolding host32
host32_twice little w h = omega arith
host32_twice big w h = refl

host32_fits : (e : Endian) (w : ℕ) → w < 2 ^ 32 → host32 e w < 2 ^ 32
unfolding host32
host32_fits little w h = omega arith
host32_fits big w h = h

-- The settings and the result, read back from their bytes.
settings_at-settings_bytes :
    (abi : Abi) (s : Settings)
    → Fits s.addr
    → s.mtu < 2 ^ 16
    → settings_at abi (settings_bytes abi s) ≡ s
unfolding settings_at settings_bytes addr_at s6_addr
settings_at-settings_bytes abi s f h = ground (
  arith,
  word32 s.addr.prefix f.prefix,
  word32 s.addr.server_ip f.server_ip,
  word16 s.addr.flags f.flags,
  word16 s.addr.client_port f.client_port,
  word32 s.addr.client_ip f.client_ip,
  word16 (host16 abi.endian s.mtu) (host16_fits abi.endian s.mtu h),
  host16_twice abi.endian s.mtu h,
)

int_at-int_bytes : (e : Endian) (n : ℕ) → n < 2 ^ 32 → int_at e (int_bytes e n) ≡ n
int_at-int_bytes e n h =
    ap (host32 e) (word32 (host32 e n) (host32_fits e n h)) ∙ host32_twice e n h

length-replicate : (n : ℕ) → length {A = ℕ} (replicate n 0) ≡ n
length-replicate zero = refl
length-replicate (suc n) = omega (arith, length-replicate n)

settings_bytes-length :
    (abi : Abi) (s : Settings) → length (settings_bytes abi s) ≡ settings_size abi
unfolding settings_bytes s6_addr
settings_bytes-length abi s = ground (arith, length-replicate abi.padding)

-- A message that is sent, and arrives with others behind it.
pub record Transfer (b more : List ℕ) (sends : List Sent) (calls : List Received) : Type 0 where
  pub passed : Passed Sent
  pub sent : miredo_send b sends ≡ some passed
  pub whole : passed.ok ≡ true
  pub arrives : arrived calls ≡ passed.bytes ++ more
  pub within : Within (length b) calls

Transfer-IsReceived :
    {b more : List ℕ} {sends : List Sent} {calls : List Received}
    → Transfer b more sends calls
    → IsReceived b more calls
Transfer-IsReceived {b} {more} {sends} {calls} t =
    miredo_recv-miredo_send b more sends t.passed calls t.sent t.whole t.arrives t.within

-- What the client and the privileged process do with new settings.
pub record Exchanged (abi : Abi) (ntop : Ntop) (env : Environment) (cfg : Settings) (name : List ℕ)
    (r : Round) (c : Configured) : Type 0 where
  pub runs :
      (serve abi ntop env (r ∷ [])).runs
      ≡ record env { current = variables_of ntop cfg; iface = some name } ∷ []
  pub told : (serve abi ntop env (r ∷ [])).env.old ≡ variables_of ntop cfg
  pub goes_on : (serve abi ntop env (r ∷ [])).stop ≡ waits
  pub returned : c.returned ≡ some r.script

sane_settings :
    (cfg : Settings) → is_multicast cfg.addr ≡ false → 1280 ≤ cfg.mtu → is_sane cfg ≡ true
unfolding is_sane
sane_settings cfg m low = ground arith

abbrev named : Ntop → Environment → Settings → List ℕ → Environment
named ntop env cfg name = record env { current = variables_of ntop cfg; iface = some name }

do_round_served :
    (abi : Abi) (ntop : Ntop) (env : Environment) (cfg : Settings) (name : List ℕ) (r : Round)
    (go_on : Environment → Served) (m : Passed Received) (p : Passed Sent)
    → m.ok ≡ true
    → settings_at abi m.bytes ≡ cfg
    → is_sane cfg ≡ true
    → r.iface ≡ some name
    → miredo_send (int_bytes abi.endian r.script) r.sends ≡ some p
    → p.ok ≡ true
    → do_round abi ntop env r go_on (some m)
      ≡ preceded
          (named ntop env cfg name ∷ [])
          p.bytes
          (go_on (record (named ntop env cfg name) { old = variables_of ntop cfg }))
unfolding do_round run_hook answer
do_round_served abi ntop env cfg name r go_on m p ok e sane n sent whole =
    rw ok (rw e (rw sane (rw n (rw sent (rw whole refl)))))

module _ (abi : Abi) (ntop : Ntop) (env : Environment) (cfg : Settings) (name : List ℕ) (r : Round)
    (sends : List Sent) (calls : List Received) (more more' : List ℕ)
    (there : Transfer (settings_bytes abi cfg) more sends r.receives)
    (back : Transfer (int_bytes abi.endian r.script) more' r.sends calls) where
  got : IsReceived (settings_bytes abi cfg) more r.receives
  got = Transfer-IsReceived there

  answered : IsReceived (int_bytes abi.endian r.script) more' calls
  answered = Transfer-IsReceived back

  serve_one :
      Fits cfg.addr
      → is_multicast cfg.addr ≡ false
      → 1280 ≤ cfg.mtu
      → cfg.mtu < 2 ^ 16
      → r.iface ≡ some name
      → serve abi ntop env (r ∷ [])
        ≡ preceded
            (named ntop env cfg name ∷ [])
            back.passed.bytes
            (stopped (record (named ntop env cfg name) { old = variables_of ntop cfg }) waits)
  unfolding serve
  serve_one f mc low high n =
      ap (do_round abi ntop env r (λ e. serve abi ntop e []))
        (ap (λ k. miredo_recv k r.receives) (sym (settings_bytes-length abi cfg)) ∙ got.returns)
      ∙ do_round_served abi ntop env cfg name r _ got.result back.passed got.ok
          (ap (settings_at abi) got.bytes ∙ settings_at-settings_bytes abi cfg f high)
          (sane_settings cfg mc low) n back.sent back.whole

  receive_result_one : r.script < 2 ^ 32 → receive_result abi.endian calls ≡ some r.script
  unfolding receive_result
  receive_result_one h =
      let back_in : miredo_recv 4 calls ≡ some answered.result = answered.returns in
      rw (back_in, receive_result)
        (rw answered.ok (
          ap some (ap (int_at abi.endian) answered.bytes ∙ int_at-int_bytes abi.endian r.script h)))

  configure_tunnel_one :
      r.script < 2 ^ 32
      → cfg.mtu < 2 ^ 16
      → (configure_tunnel abi cfg.addr cfg.mtu sends calls).returned ≡ some r.script
  unfolding configure_tunnel
  configure_tunnel_one h high =
      let short : ltb 65535 cfg.mtu ≡ false = ground arith in
      rw short (rw there.sent (rw there.whole (receive_result_one h)))

-- New settings, with an address that fits its words and is not multicast and an MTU between 1280 and
-- 65535, that the client sends whole and that arrive, and an answer that is sent whole and arrives in
-- turn, in whatever pieces; the interface is there, and the result of the script is a 32-bit word:
-- the privileged process runs the hook script once, with the variables of these settings and the OLD_
-- variables it had, keeps the former as the next OLD_ variables, and waits for more; the client
-- returns the result of the script.
pub configure_tunnel-serve :
    (abi : Abi) (ntop : Ntop) (env : Environment) (cfg : Settings) (name : List ℕ) (r : Round)
    (sends : List Sent) (calls : List Received) (more more' : List ℕ)
    → Fits cfg.addr
    → is_multicast cfg.addr ≡ false
    → 1280 ≤ cfg.mtu
    → cfg.mtu < 2 ^ 16
    → r.iface ≡ some name
    → r.script < 2 ^ 32
    → Transfer (settings_bytes abi cfg) more sends r.receives
    → Transfer (int_bytes abi.endian r.script) more' r.sends calls
    → Exchanged abi ntop env cfg name r (configure_tunnel abi cfg.addr cfg.mtu sends calls)
configure_tunnel-serve abi ntop env cfg name r sends calls more more' f mc low high n s there back =
    let e = serve_one abi ntop env cfg name r sends calls more more' there back f mc low high n in
    record {
      runs = ap (λ s. s.runs) e;
      told = ap (λ s. s.env.old) e;
      goes_on = ap (λ s. s.stop) e;
      returned =
          configure_tunnel_one abi ntop env cfg name r sends calls more more' there back s high;
    }
