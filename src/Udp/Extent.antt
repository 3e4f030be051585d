-- ===== src/Udp/Extent.antt =====
-- Where the IPv6 packet that `teredo_recv_inner` hands on lies in the datagram.
use miredo.Prelude.Word.{u8}
use miredo.Prelude.{
  ◌==◌, Bool-cases, Option-cases, length, drop, length-drop, take_len, drop-drop, take-drop_front,
  ℕ, ◌+◌, ◌≤◌, ◌≡◌, ap, ◌∙◌, inl, inr, ◌&&◌, some, List, ◌++◌, arith,
}
use miredo.Udp.{
  Datagram, TeredoPacket, Stale, Unwrapped, strip_auth, strip_origin, recv_inner, move_down,
}

-- The end of a list behind some prefix.
abbrev pub SuffixOf : List ℕ → List ℕ → Type 0
SuffixOf xs ys = (n : ℕ) × (ys ≡ drop n xs) × (n ≤ length xs)

record Holds (xs : List ℕ) (u : Unwrapped) : Type 0 where
  skipped : ℕ
  junk : List ℕ
  bytes : u.buf ≡ drop skipped xs ++ junk
  count : u.len ≡ length (drop skipped xs)
  within : skipped ≤ length xs

skip_header : (n : ℕ) (b : List ℕ) → drop 9 (drop n (drop 4 b)) ≡ drop (13 + n) b
skip_header n b = drop-drop n 9 (drop 4 b) ∙ drop-drop 4 (n + 9) b ∙ ap (λ (k : ℕ). drop k b) same
  where
    same : 4 + (n + 9) ≡ 13 + n
    same = omega arith

strip_auth-Holds :
    (old : Stale) (xs junk : List ℕ) {u : Unwrapped}
    → strip_auth old (xs ++ junk) (length xs) ≡ some u
    → Holds xs u
unfolding strip_auth move_down
strip_auth-Holds old xs junk {u} e =
    let b : List ℕ = xs ++ junk in
    let k : ℕ = 13 + (u8 b 2 + u8 b 3) in
    elim (Bool-cases (u8 b 0 == 0 && u8 b 1 == 1)) [
      | inl tagged ↦ record {
        skipped = k;
        junk = drop (length (drop k xs)) b;
        bytes =
            ground
              (arith, take-drop_front k xs junk, skip_header (u8 b 2 + u8 b 3) b, length-drop k xs);
        count = ground (arith, length-drop k xs);
        within = ground arith;
      }
      | inr plain ↦ record {
        skipped = 0;
        junk = junk;
        bytes = ground arith;
        count = ground arith;
        within = ground arith;
      }
    ]

strip_origin-suffix :
    (d : Datagram) (xs : List ℕ) (u : Unwrapped) {p : TeredoPacket}
    → Holds xs u
    → strip_origin d u ≡ some p
    → SuffixOf xs p.ip6
unfolding strip_origin
strip_origin-suffix d xs u {p} h e =
    let front : List ℕ = drop h.skipped xs in
    elim (Bool-cases (u8 u.buf 0 == 0 && u8 u.buf 1 == 0)) [
      | inl tagged ↦ (
        h.skipped + 8,
        ground (arith, take-drop_front 8 front h.junk, drop-drop h.skipped 8 xs),
        ground (arith, length-drop h.skipped xs),
      )
      | inr plain ↦ (h.skipped, ground (arith, take_len u.len front h.junk), h.within)
    ]

-- The IPv6 packet that is handed on is the end of the datagram's payload: none of its bytes come
-- from an earlier content of the receive buffer, and it does not reach past the payload.
pub recv_inner-SuffixOf :
    (old : Stale) (d : Datagram) {p : TeredoPacket}
    → recv_inner old d ≡ some p
    → SuffixOf d.payload p.ip6
unfolding recv_inner
recv_inner-SuffixOf old d {p} e =
    let xs : List ℕ = d.payload in
    let junk : List ℕ = drop (length xs) old.fill in
    elim (Option-cases (strip_auth old (xs ++ junk) (length xs))) [
      | inl failed ↦ absurd (ground arith)
      | inr (u, found) ↦
          strip_origin-suffix d xs u {p = p} (strip_auth-Holds old xs junk found) (ground arith)
    ]
