-- ===== src/Server/Lifetime.antt =====
-- libteredo/server.c: the creation and destruction of servers, which share one raw IPv6 socket. The
-- process keeps, beside the variables of the source, whether the raw socket is open and how many UDP
-- sockets are.
use miredo.Prelude.{
  ℕ, zero, suc, ◌+◌, ◌-◌, ◌*◌, ◌^◌, ◌≤◌, ◌<◌, ◌==◌, if◌then◌else◌, length, Bool, true, false,
  Option, none, some, List, [], ◌∷◌, ◌≡◌, refl, ap, subst, arith,
}
use miredo.Server.{TeredoServer, server_create}

-- `raw_users`, `raw_fd` (`none` for -1), and the servers that have been created.
pub record Process : Type 0 where
  pub raw_users : ℕ
  pub raw_fd : Option ℕ
  pub raw_open : Bool
  pub udp_open : ℕ
  pub servers : List TeredoServer

abbrev pub initial : Process
initial = record { raw_users = 0; raw_fd = some 0; raw_open = false; udp_open = 0; servers = [] }

-- What the calls of one `teredo_server_create` return: `socket`, `malloc`, and `teredo_socket` twice.
pub record Calls : Type 0 where
  pub raw : Option ℕ
  pub memory : Bool
  pub primary : Option ℕ
  pub secondary : Option ℕ

-- A user more of the raw socket, which is opened for the first one.
unfoldable pub join : Process → Calls → Process
join c k =
    if c.raw_users == 0
    then record c {
      raw_users = c.raw_users + 1;
      raw_fd = k.raw;
      raw_open = (elim k.raw [ none ↦ false | some fd ↦ true ]);
    }
    else record c { raw_users = c.raw_users + 1 }

-- The two UDP sockets; the first one is closed if there is no second one.
unfoldable pub open_udp : Process → Calls → TeredoServer → Process
open_udp c k s = elim k.primary [
  | none ↦ c
  | some fd ↦ elim k.secondary [
    | none ↦ record c { udp_open = c.udp_open + 1 - 1 }
    | some fd' ↦ record c { udp_open = c.udp_open + 1 + 1; servers = s ∷ c.servers }
  ]
]

-- `teredo_server_create`: the process after it; a server that is returned is in front.
unfoldable pub create_server : Process → Calls → ℕ → ℕ → Process
create_server c k ip1 ip2 =
    let joined = join c k in
    if c.raw_users == 2 ^ 32 - 1 then c else elim joined.raw_fd [
      | none ↦ joined
      | some fd ↦ elim (server_create ip1 ip2) [
        | none ↦ joined
        | some s ↦ if k.memory then open_udp joined k s else joined
      ]
    ]

-- The servers without the one at an index.
abbrev pub remove_at : {A : Type 0} → ℕ → List A → Option (List A)
remove_at i [] = none
remove_at zero (x ∷ xs) = some xs
remove_at (suc i) (x ∷ xs) = elim (remove_at i xs) [ none ↦ none | some ys ↦ some (x ∷ ys) ]

-- `teredo_server_destroy` on one of the servers.
unfoldable pub destroy_server : Process → ℕ → Option Process
destroy_server c i = elim (remove_at i c.servers) [
  | none ↦ none
  | some ss ↦
      let left = record c {
        udp_open = c.udp_open - 1 - 1;
        servers = ss;
        raw_users = c.raw_users - 1;
      } in
      some (if c.raw_users - 1 == 0 then record left { raw_open = false } else left)
]

-- The calls of a user of the library, who destroys servers that exist.
pub data Call : Type 0 where
  creates : Calls → ℕ → ℕ → Call
  destroys : ℕ → Call

abbrev pub after_call : Process → Call → Option Process
after_call c (creates k ip1 ip2) = some (create_server c k ip1 ip2)
after_call c (destroys i) = destroy_server c i

abbrev pub after_calls : Process → List Call → Option Process
after_calls c [] = some c
after_calls c (o ∷ os) = elim (after_call c o) [ none ↦ none | some c' ↦ after_calls c' os ]

-- Between two calls: each server is counted as a user, has its two sockets, and has the raw socket.
record IsHeld (c : Process) : Type 0 where
  counted : length c.servers ≤ c.raw_users
  word : c.raw_users < 2 ^ 32
  udp : c.udp_open ≡ 2 * length c.servers
  raw : 0 < length c.servers → c.raw_open ≡ true
  known : 0 < c.raw_users → c.raw_open ≡ (elim c.raw_fd [ none ↦ false | some fd ↦ true ])

-- What holds of the process, if the calls may be made.
abbrev Still : (Process → Type 0) → Option Process → Type 0
Still P none = Unit {0}
Still P (some c) = P c

create_server-IsHeld :
    (c : Process) (k : Calls) (ip1 ip2 : ℕ) → IsHeld c → IsHeld (create_server c k ip1 ip2)
unfolding create_server join open_udp
create_server-IsHeld c k ip1 ip2 v = record {
  counted = ground (arith, v.counted);
  word = ground (arith, v.word);
  udp = ground (arith, v.udp);
  raw = ground (arith, v.counted, v.raw, v.known);
  known = ground (arith, v.known);
}

-- A list that is one shorter than another, if there is one.
abbrev Shorter : {A : Type 0} → List A → Option (List A) → Type 0
Shorter xs none = Unit {0}
Shorter xs (some ys) = suc (length ys) ≡ length xs

remove_at-Shorter : {A : Type 0} (i : ℕ) (xs : List A) → Shorter xs (remove_at i xs)
remove_at-Shorter i [] = tt
remove_at-Shorter zero (x ∷ xs) = refl
remove_at-Shorter {A} (suc i) (x ∷ xs) = longer (remove_at i xs) (remove_at-Shorter i xs)
  where
    longer :
        (o : Option (List A))
        → Shorter xs o
        → Shorter (x ∷ xs) (elim o [ none ↦ none | some ys ↦ some (x ∷ ys) ])
    longer none h = tt
    longer (some ys) h = ap suc h

destroy_server-IsHeld : (c : Process) (i : ℕ) → IsHeld c → Still IsHeld (destroy_server c i)
unfolding destroy_server
destroy_server-IsHeld c i v = by_servers (remove_at i c.servers) (remove_at-Shorter i c.servers)
  where
    held :
        (ss : List TeredoServer)
        → suc (length ss) ≡ length c.servers
        → let left = record c {
          udp_open = c.udp_open - 1 - 1;
          servers = ss;
          raw_users = c.raw_users - 1;
        } in
          let r : Process =
            if c.raw_users - 1 == 0 then record left { raw_open = false } else left in
          IsHeld r
    held ss e = record {
      counted = ground (arith, v.counted);
      word = ground (arith, v.word);
      udp = ground (arith, v.udp);
      raw = ground (arith, v.counted, v.raw);
      known = ground (arith, v.known);
    }

    by_servers :
        (o : Option (List TeredoServer))
        → Shorter c.servers o
        → Still IsHeld (elim o [
          | none ↦ none
          | some ss ↦
              let left = record c {
                udp_open = c.udp_open - 1 - 1;
                servers = ss;
                raw_users = c.raw_users - 1;
              } in
              some (if c.raw_users - 1 == 0 then record left { raw_open = false } else left)
        ])
    by_servers none h = tt
    by_servers (some ss) h = held ss h

after_call-IsHeld : (c : Process) (o : Call) → IsHeld c → Still IsHeld (after_call c o)
after_call-IsHeld c (creates k ip1 ip2) v = create_server-IsHeld c k ip1 ip2 v
after_call-IsHeld c (destroys i) v = destroy_server-IsHeld c i v

after_calls-IsHeld : (os : List Call) (c : Process) → IsHeld c → Still IsHeld (after_calls c os)
after_calls-IsHeld [] c v = v
after_calls-IsHeld (o ∷ os) c v =
    by_call (after_call c o) (after_call-IsHeld c o v) (λ c' v'. after_calls-IsHeld os c' v')
  where
    by_call :
        (p : Option Process)
        → Still IsHeld p
        → ((c' : Process) → IsHeld c' → Still IsHeld (after_calls c' os))
        → Still IsHeld (elim p [ none ↦ none | some c' ↦ after_calls c' os ])
    by_call none h f = tt
    by_call (some c') h f = f c' h

-- With a server, the raw socket is open.
abbrev pub HasRaw : List TeredoServer → Bool → Type 0
HasRaw [] raw_open = Unit {0}
HasRaw (s ∷ ss) raw_open = raw_open ≡ true

-- In any history of creations, with whatever results of the calls they make, and of destructions of
-- servers that exist: while there is a server the raw socket is open, no server is without its count
-- as a user of it, the count does not wrap around, and two UDP sockets are open for each server.
pub after_calls-initial :
    (os : List Call) (c : Process)
    → after_calls initial os ≡ some c
    → HasRaw c.servers c.raw_open
      × (length c.servers ≤ c.raw_users)
      × (c.raw_users < 2 ^ 32)
      × (c.udp_open ≡ 2 * length c.servers)
after_calls-initial os c e = (has_raw c.servers held.raw, held.counted, held.word, held.udp)
  where
    has_raw : (ss : List TeredoServer) → (0 < length ss → c.raw_open ≡ true) → HasRaw ss c.raw_open
    has_raw [] h = tt
    has_raw (s ∷ ss) h = h (omega arith)

    first : IsHeld initial
    first = record {
      counted = omega arith;
      word = omega arith;
      udp = refl;
      raw = λ h. absurd (omega arith);
      known = λ h. absurd (omega arith);
    }

    held : IsHeld c
    held = subst (Still IsHeld) e (after_calls-IsHeld os initial first)

-- A process that counts users of a raw socket it does not have.
record IsStuck (c : Process) : Type 0 where
  users : 0 < c.raw_users
  no_socket : c.raw_fd ≡ none
  no_server : c.servers ≡ []

after_call-IsStuck : (c : Process) (o : Call) → IsStuck c → Still IsStuck (after_call c o)
unfolding create_server join destroy_server
after_call-IsStuck c (creates k ip1 ip2) v = ground (arith, v.users, v.no_socket, v.no_server)
after_call-IsStuck c (destroys i) v = ground (arith, v.no_server)

first_failed : (k : Calls) (ip1 ip2 : ℕ) → k.raw ≡ none → IsStuck (create_server initial k ip1 ip2)
unfolding create_server join
first_failed k ip1 ip2 n = ground (arith, n)

after_calls-IsStuck : (os : List Call) (c : Process) → IsStuck c → Still IsStuck (after_calls c os)
after_calls-IsStuck [] c v = v
after_calls-IsStuck (o ∷ os) c v =
    by_call (after_call c o) (after_call-IsStuck c o v) (λ c' v'. after_calls-IsStuck os c' v')
  where
    by_call :
        (p : Option Process)
        → Still IsStuck p
        → ((c' : Process) → IsStuck c' → Still IsStuck (after_calls c' os))
        → Still IsStuck (elim p [ none ↦ none | some c' ↦ after_calls c' os ])
    by_call none h f = tt
    by_call (some c') h f = f c' h

-- If the raw socket cannot be opened for the first creation of a server, no later creation succeeds,
-- whatever the calls then return.
pub after_calls-no_server :
    (k : Calls) (ip1 ip2 : ℕ) (os : List Call) (c : Process)
    → k.raw ≡ none
    → after_calls initial (creates k ip1 ip2 ∷ os) ≡ some c
    → c.servers ≡ []
after_calls-no_server k ip1 ip2 os c n e =
    (subst (Still IsStuck) e
      (after_calls-IsStuck os (create_server initial k ip1 ip2) stuck)).no_server
  where
    stuck : IsStuck (create_server initial k ip1 ip2)
    stuck = first_failed k ip1 ip2 n
