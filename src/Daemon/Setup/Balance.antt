-- ===== src/Daemon/Setup/Balance.antt =====
-- The order of what `relay_run` opens and closes, and what is left open at the end.
use miredo.Prelude.{
  if◌then◌else◌, ◌≡◌, refl, ap, ◌∙◌, Bool, true, false, not, ◌&&◌, ◌||◌, some, [], ◌∷◌, ◌++◌,
}
use miredo.Relay.Settled.{choice}
use miredo.Daemon.Setup.{
  Creation, created, unsupported, failed, is_created, is_unsupported, device, hook_end, client_end,
  hook_process, library, opens, closes, Outside, Done, create_dynamic_tunnel, create_static_tunnel,
  destroy_tunnel, use_library, relay_setup,
}
use miredo.Daemon.Setup.Rules.{
  follow, follow-append, has_run, has_run-append, or_false, Leads, tunnel_held, at,
}
use miredo.Daemon.Setup.Library.{use_library-Leads, leaves_library, reaches_drop}

-- The tunnel is created whole, or nothing of it is left.
data IsTunnel : Bool → Done → Type 0 where
  whole_dynamic : IsTunnel true (
    opens device ∷ opens hook_end ∷ opens client_end ∷ opens hook_process ∷ closes hook_end ∷ [],
    true,
  )
  whole_static : IsTunnel false (opens device ∷ [], true)
  no_device : {client : Bool} → IsTunnel client ([], false)
  device_only : {client : Bool} → IsTunnel client (opens device ∷ closes device ∷ [], false)
  no_process : IsTunnel true (
    opens device
        ∷ opens hook_end
        ∷ opens client_end
        ∷ closes hook_end
        ∷ closes client_end
        ∷ closes device
        ∷ [],
    false,
  )

create_dynamic_tunnel-IsTunnel : (o : Outside) → IsTunnel true (create_dynamic_tunnel o)
unfolding create_dynamic_tunnel
create_dynamic_tunnel-IsTunnel o = by_calls o.first o.pairs o.forks
  where
    by_calls :
        (c : Creation) (p f : Bool)
        → IsTunnel true (create_dynamic_tunnel (record o { first = c; pairs = p; forks = f }))
    by_calls failed p f = no_device
    by_calls unsupported p f = no_device
    by_calls created false f = device_only
    by_calls created true false = no_process
    by_calls created true true = whole_dynamic

create_static_tunnel-IsTunnel : (o : Outside) → IsTunnel false (create_static_tunnel o)
unfolding create_static_tunnel
create_static_tunnel-IsTunnel o =
    choice (IsTunnel false)
      (not (is_created o.first || (o.named && (is_unsupported o.first && o.second)))) _ _ no_device
      (choice (IsTunnel false)
        (not o.sets_mtu || (not o.brings_up || (not o.adds_address || not o.adds_route))) _ _
        device_only whole_static)

-- The tunnel is destroyed after what is done with it.
tunnel-Leads :
    (client : Bool) (d rest : Done) (leaves dropped : Bool)
    → IsTunnel client d
    → Leads
        (at (tunnel_held client) false)
        rest
        (at (if leaves then library ∷ tunnel_held client else tunnel_held client) dropped)
    → Leads
        (at [] false)
        (if d.1 then (d.0 ++ (rest.0 ++ destroy_tunnel client), rest.1) else (d.0, false))
        (at (if d.1 && leaves then library ∷ [] else []) (d.1 && dropped))
unfolding destroy_tunnel
tunnel-Leads true _ rest leaves dropped whole_dynamic h = record {
  ends =
      follow-append (some (at (tunnel_held true) false)) rest.0 (destroy_tunnel true)
      ∙ ap (λ s. follow s (destroy_tunnel true)) h.ends
      ∙ destroyed leaves;
  result = has_run-append rest.0 _ ∙ or_false (has_run rest.0) ∙ h.result;
}
  where
    destroyed :
        (l : Bool)
        → follow
            (some (at (if l then library ∷ tunnel_held true else tunnel_held true) dropped))
            (destroy_tunnel true)
          ≡ some (at (if l then library ∷ [] else []) dropped)
    destroyed true = refl
    destroyed false = refl
tunnel-Leads false _ rest leaves dropped whole_static h = record {
  ends =
      follow-append (some (at (tunnel_held false) false)) rest.0 (destroy_tunnel false)
      ∙ ap (λ s. follow s (destroy_tunnel false)) h.ends
      ∙ destroyed leaves;
  result = has_run-append rest.0 _ ∙ or_false (has_run rest.0) ∙ h.result;
}
  where
    destroyed :
        (l : Bool)
        → follow
            (some (at (if l then library ∷ tunnel_held false else tunnel_held false) dropped))
            (destroy_tunnel false)
          ≡ some (at (if l then library ∷ [] else []) dropped)
    destroyed true = refl
    destroyed false = refl
tunnel-Leads client _ rest leaves dropped no_device h = record { ends = refl; result = refl }
tunnel-Leads client _ rest leaves dropped device_only h = record { ends = refl; result = refl }
tunnel-Leads true _ rest leaves dropped no_process h = record { ends = refl; result = refl }

-- Whether the tunnel is created.
abbrev pub has_tunnel : Bool → Outside → Bool
has_tunnel client o =
    let d = if client then create_dynamic_tunnel o else create_static_tunnel o in d.1

-- Of a client and of a relay, whichever of the calls fail: every step of the set-up, the run and the
-- end keeps the rules. Nothing is opened twice, or closed when it is not open; no socket, device, process,
-- library or list is closed while a thread of the relay runs, and no thread is started before what it
-- uses; the device, the privileged process and the ICMPv6 socket are opened with the privileges, the
-- relay's socket and threads without them. Nothing is left open at the end, but the library if the ICMPv6
-- socket cannot be opened. The result is one of success exactly when a signal has been waited for.
pub relay_setup-follow :
    (client : Bool) (o : Outside)
    → (follow (some (at [] false)) (relay_setup client o).0
        ≡ some (record {
          held = if has_tunnel client o && leaves_library o then library ∷ [] else [];
          dropped = has_tunnel client o && reaches_drop o;
        }))
      × (has_run (relay_setup client o).0 ≡ (relay_setup client o).1)
unfolding relay_setup
relay_setup-follow client o =
    let all =
      tunnel-Leads client tunnel (use_library client o) (leaves_library o) (reaches_drop o)
        (is_tunnel client) (use_library-Leads client o) in
    (all.ends, all.result)
  where
    tunnel : Done
    tunnel = if client then create_dynamic_tunnel o else create_static_tunnel o

    is_tunnel :
        (b : Bool)
        → let d : Done = if b then create_dynamic_tunnel o else create_static_tunnel o in
          IsTunnel b d
    is_tunnel true = create_dynamic_tunnel-IsTunnel o
    is_tunnel false = create_static_tunnel-IsTunnel o
