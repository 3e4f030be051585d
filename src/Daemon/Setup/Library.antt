-- ===== src/Daemon/Setup/Library.antt =====
-- From the opening of the library to its closing.
use miredo.Prelude.{
  inl, inr, Bool-cases, if◌then◌else◌, refl, ap, ◌∙◌, Bool, true, false, not, ◌&&◌, some, [], ◌∷◌,
  ◌++◌,
}
use miredo.Daemon.Setup.{
  library, icmp6_socket, memory, udp_socket, peer_list, opens, closes, drops, Outside, Done,
  drop_privileges, create_relay, destroy_relay, set_mode, run_tunnel, use_relay, use_privileges,
  use_library,
}
use miredo.Daemon.Setup.Rules.{
  Standing, follow, follow-append, has_run, has_run-append, or_false, Leads, tunnel_held,
  library_held, at,
}

use_relay-Leads :
    (client : Bool) (o : Outside)
    → Leads
        (at (peer_list ∷ udp_socket ∷ memory ∷ library_held client) true)
        (use_relay client o)
        (at (library_held client) true)
unfolding use_relay set_mode run_tunnel destroy_relay
use_relay-Leads client o = by_calls client o.maintains o.receives o.encapsulates
  where
    by_calls :
        (client m r e : Bool)
        → Leads
            (at (peer_list ∷ udp_socket ∷ memory ∷ library_held client) true)
            (use_relay client (record o { maintains = m; receives = r; encapsulates = e }))
            (at (library_held client) true)
    by_calls true false r e = record { ends = refl; result = refl }
    by_calls true true false e = record { ends = refl; result = refl }
    by_calls true true true false = record { ends = refl; result = refl }
    by_calls true true true true = record { ends = refl; result = refl }
    by_calls false m false e = record { ends = refl; result = refl }
    by_calls false m true false = record { ends = refl; result = refl }
    by_calls false m true true = record { ends = refl; result = refl }

-- The relay is created whole, or nothing of it is left.
data IsMade : Done → Type 0 where
  whole : IsMade (opens memory ∷ opens udp_socket ∷ opens peer_list ∷ [], true)
  not_at_all : IsMade ([], false)
  no_socket : IsMade (opens memory ∷ closes memory ∷ [], false)
  no_list : IsMade (opens memory ∷ opens udp_socket ∷ closes udp_socket ∷ closes memory ∷ [], false)

create_relay-IsMade : (o : Outside) → IsMade (create_relay o)
unfolding create_relay
create_relay-IsMade o = by_calls o.allocates o.has_socket o.has_list
  where
    by_calls :
        (a s l : Bool)
        → IsMade (create_relay (record o { allocates = a; has_socket = s; has_list = l }))
    by_calls false s l = not_at_all
    by_calls true false l = no_socket
    by_calls true true false = no_list
    by_calls true true true = whole

made-Leads :
    (client : Bool) (r rest : Done)
    → IsMade r
    → Leads
        (at (peer_list ∷ udp_socket ∷ memory ∷ library_held client) true)
        rest
        (at (library_held client) true)
    → Leads
        (at (library_held client) false)
        (if not r.1 then (drops ∷ r.0, false) else (drops ∷ (r.0 ++ rest.0), rest.1))
        (at (library_held client) true)
made-Leads true _ rest whole h = record { ends = h.ends; result = h.result }
made-Leads true _ rest not_at_all h = record { ends = refl; result = refl }
made-Leads true _ rest no_socket h = record { ends = refl; result = refl }
made-Leads true _ rest no_list h = record { ends = refl; result = refl }
made-Leads false _ rest whole h = record { ends = h.ends; result = h.result }
made-Leads false _ rest not_at_all h = record { ends = refl; result = refl }
made-Leads false _ rest no_socket h = record { ends = refl; result = refl }
made-Leads false _ rest no_list h = record { ends = refl; result = refl }

use_privileges-Leads :
    (client : Bool) (o : Outside)
    → Leads
        (at (library_held client) false)
        (use_privileges client o)
        (at (library_held client) (drop_privileges o))
unfolding use_privileges
use_privileges-Leads client o = elim (Bool-cases (drop_privileges o)) [
  | inr h ↦ rw h (record { ends = refl; result = refl })
  | inl h ↦ rw h (
      made-Leads client (create_relay o) (use_relay client o) (create_relay-IsMade o)
        (use_relay-Leads client o))
]

-- Whether the library is left open: `miredo_init` fails after `teredo_startup` has succeeded.
abbrev pub leaves_library : Outside → Bool
leaves_library o = o.starts_up && not o.has_icmp6

abbrev pub reaches_drop : Outside → Bool
reaches_drop o = o.starts_up && (o.has_icmp6 && drop_privileges o)

abbrev pub after_library : Bool → Outside → Standing
after_library client o =
    at (if leaves_library o then library ∷ tunnel_held client else tunnel_held client)
      (reaches_drop o)

-- What is done between the opening and the closing of the library.
around-Leads :
    (client : Bool) (rest : Done) (dropped : Bool)
    → Leads (at (library_held client) false) rest (at (library_held client) dropped)
    → Leads
        (at (tunnel_held client) false)
        (
          opens library
              ∷ opens icmp6_socket
              ∷ (rest.0 ++ (closes icmp6_socket ∷ closes library ∷ [])),
          rest.1,
        )
        (at (tunnel_held client) dropped)
around-Leads true rest dropped h = record {
  ends =
      follow-append (some (at (library_held true) false)) rest.0 _
      ∙ ap (λ s. follow s (closes icmp6_socket ∷ closes library ∷ [])) h.ends;
  result = has_run-append rest.0 _ ∙ or_false (has_run rest.0) ∙ h.result;
}
around-Leads false rest dropped h = record {
  ends =
      follow-append (some (at (library_held false) false)) rest.0 _
      ∙ ap (λ s. follow s (closes icmp6_socket ∷ closes library ∷ [])) h.ends;
  result = has_run-append rest.0 _ ∙ or_false (has_run rest.0) ∙ h.result;
}

pub use_library-Leads :
    (client : Bool) (o : Outside)
    → Leads (at (tunnel_held client) false) (use_library client o) (after_library client o)
unfolding use_library
use_library-Leads client o =
    by_calls client o.starts_up o.has_icmp6 (use_privileges client o) (drop_privileges o)
      (use_privileges-Leads client o)
  where
    by_calls :
        (client s i : Bool) (rest : Done) (dropped : Bool)
        → Leads (at (library_held client) false) rest (at (library_held client) dropped)
        → Leads
            (at (tunnel_held client) false)
            (if not s then ([], false) else if not i then (opens library ∷ [], false) else (
              opens library
                  ∷ opens icmp6_socket
                  ∷ (rest.0 ++ (closes icmp6_socket ∷ closes library ∷ [])),
              rest.1,
            ))
            (at
              (if s && not i then library ∷ tunnel_held client else tunnel_held client)
              (s && (i && dropped)))
    by_calls client false i rest dropped h = record { ends = refl; result = refl }
    by_calls true true false rest dropped h = record { ends = refl; result = refl }
    by_calls false true false rest dropped h = record { ends = refl; result = refl }
    by_calls client true true rest dropped h = around-Leads client rest dropped h
