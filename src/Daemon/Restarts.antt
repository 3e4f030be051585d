-- ===== src/Daemon/Restarts.antt =====
-- The settings that the children of src/miredo.c are started with.
use miredo.Prelude.{
  ℕ, ◌==◌, if◌then◌else◌, Bool, true, false, Option, none, some, List, [], ◌∷◌, ◌++◌, ◌≡◌, refl,
  sym, subst, ap, ◌∙◌,
}
use miredo.Conf.{Setting, MiredoConf, Malloc, create, get, clear}
use miredo.Conf.Chain.{Distinct, Ends, IsLinked, IsFresh}
use miredo.Conf.Found.{Finds, get-Finds}
use miredo.Conf.Words.{NoZero}
use miredo.Conf.Extends.{Good, IsRead}
use miredo.Conf.Reads.{read_stream-IsRead}
use miredo.Conf.Reader.{Reading, undefined, out_of_fuel, ended, read_file}
use miredo.Daemon.Names.{syslog_facility}
use miredo.Daemon.Checked.{parse_syslog_facility-get}
use miredo.Daemon.Supervisor.{
  Round, Supervision, Standing, returned, waiting, broken, supervise_child, child_conf, supervise,
  after_status, wait_signal,
}

Good-left :
    (front back : List Setting) (p : Setting) → Good (front ++ (p ∷ back)) → Good (front ++ back)
Good-left [] back p g = g.1
Good-left (s ∷ front) back p g = (g.0, Good-left front back p g.1)

get-Good : (c : MiredoConf) (name : List ℕ) → Good c.chain → Good (get c name).0.chain
get-Good c name g = by_found (get c name) (get-Finds c name)
  where
    by_found : (r : MiredoConf × Option Setting) → Finds name c r → Good r.0.chain
    by_found (c', none) f = subst (λ (x : MiredoConf). Good x.chain) (sym f.0) g
    by_found (c', some p) f =
        subst Good (sym f.0.left) (Good-left f.0.front f.0.back p (subst Good f.0.split g))

child_conf-Good : (c : MiredoConf) → Good c.chain → Good (child_conf c).chain
child_conf-Good c g =
    subst (λ (x : MiredoConf). Good x.chain) (sym (parse_syslog_facility-get c syslog_facility 24))
      (get-Good c syslog_facility g)

-- A file that could not be opened, or has no zero byte.
abbrev pub IsText : Option (List ℕ) → Type 0
IsText none = Unit {0}
IsText (some stream) = NoZero stream

abbrev pub AreTexts : List Round → Type 0
AreTexts [] = Unit {0}
AreTexts (r ∷ rs) = IsText r.file × AreTexts rs

abbrev ReadsGood : Reading → Type 0
ReadsGood undefined = ⊥
ReadsGood out_of_fuel = ⊥
ReadsGood (ended s) = Good s.conf.chain

chain-IsLinked : (c : MiredoConf) → c.chain ≡ [] → IsLinked c
chain-IsLinked c e = record {
  distinct = subst Distinct (sym e) tt;
  ends = subst (Ends c.tail) (sym e) tt;
}

read_file-ReadsGood :
    (malloc : Malloc) (fails : Bool) (c : MiredoConf) (file : Option (List ℕ))
    → IsFresh malloc
    → c.chain ≡ []
    → IsText file
    → ReadsGood (read_file malloc fails c file)
unfolding read_file
read_file-ReadsGood malloc fails c none fresh e t = subst Good (sym e) tt
read_file-ReadsGood malloc fails c (some stream) fresh e t =
    by_reading _ (read_stream-IsRead malloc fails c stream fresh (chain-IsLinked c e) t)
  where
    by_reading : (r : Reading) → IsRead c fails r → ReadsGood r
    by_reading undefined h = h
    by_reading out_of_fuel h = h
    by_reading (ended s) h =
        subst Good (sym (h.0.chain ∙ ap (λ (m : List Setting). m ++ h.0.new) e)) h.0.good

-- Every child has settings of the sizes that the reader allows.
abbrev pub AllGood : List MiredoConf → Type 0
AllGood [] = Unit {0}
AllGood (c ∷ cs) = Good c.chain × AllGood cs

abbrev pub IsDefined : Standing → Type 0
IsDefined broken = ⊥
IsDefined s = Unit {0}

-- What is to hold of all that a process does.
pub record IsSafe (v : Supervision) : Type 0 where
  pub children : AllGood v.children
  pub defined : IsDefined v.standing

supervise_child-IsSafe :
    (c : MiredoConf) (r : Round) (rest : Supervision)
    → Good c.chain
    → IsSafe rest
    → IsSafe (supervise_child c r rest)
unfolding supervise_child
supervise_child-IsSafe c r rest g v = by_signal (wait_signal r.signals)
  where
    by_code :
        (b : Bool) (n : ℕ)
        → let x : Supervision =
            if b
            then record { children = c ∷ rest.children; standing = rest.standing }
            else record { children = c ∷ []; standing = returned n } in
          IsSafe x
    by_code true n = record { children = (g, v.children); defined = v.defined }
    by_code false n = record { children = (g, tt); defined = tt }

    by_signal :
        (o : Option ℕ)
        → IsSafe (elim o [
          | none ↦ record { children = c ∷ []; standing = waiting }
          | some retval ↦
              if after_status r.status retval == 2
              then record { children = c ∷ rest.children; standing = rest.standing }
              else record { children = c ∷ []; standing = returned (after_status r.status retval) }
        ])
    by_signal none = record { children = (g, tt); defined = tt }
    by_signal (some retval) =
        by_code (after_status r.status retval == 2) (after_status r.status retval)

-- Each allocator gives addresses that are not in use, or nothing.
abbrev pub AreFresh : List Round → Type 0
AreFresh [] = Unit {0}
AreFresh (r ∷ rs) = IsFresh r.malloc × AreFresh rs

supervise-IsSafe :
    (rs : List Round) (c : MiredoConf)
    → AreFresh rs
    → c.chain ≡ []
    → AreTexts rs
    → IsSafe (supervise c rs)
unfolding supervise clear
supervise-IsSafe [] c fresh e t = record { children = tt; defined = tt }
supervise-IsSafe (r ∷ rs) c fresh e t =
    by_reading (read_file r.malloc r.fails c r.file)
      (read_file-ReadsGood r.malloc r.fails c r.file fresh.0 e t.0)
      (λ c' e'. supervise-IsSafe rs c' fresh.1 e' t.1)
  where
    forked :
        (b : Bool) (child : MiredoConf) (rest : Supervision)
        → Good child.chain
        → IsSafe rest
        → let x : Supervision =
            if b
            then supervise_child child r rest
            else record { children = []; standing = returned 1 } in
          IsSafe x
    forked true child rest g v = supervise_child-IsSafe child r rest g v
    forked false child rest g v = record { children = tt; defined = tt }

    by_reading :
        (x : Reading)
        → ReadsGood x
        → ((c' : MiredoConf) → c'.chain ≡ [] → IsSafe (supervise c' rs))
        → IsSafe (elim x [
          | undefined ↦ record { children = []; standing = broken }
          | out_of_fuel ↦ record { children = []; standing = broken }
          | ended s ↦
              let child = child_conf s.conf in
              let rest = supervise (clear child 0).0 rs in
              if r.forks
              then supervise_child child r rest
              else record { children = []; standing = returned 1 }
        ])
    by_reading undefined g f = absurd g
    by_reading out_of_fuel g f = absurd g
    by_reading (ended s) g f =
        forked r.forks (child_conf s.conf) _ (child_conf-Good s.conf g) (f _ refl)

-- However often `miredo` restarts its child, and whatever signals, files without zero bytes and results
-- of its system calls it gets, with allocators, one for each reading, that give addresses not in use or
-- nothing, it writes to no freed memory and reads none outside its buffers,
-- though it looks a setting up between two readings; and each child is started with settings whose
-- names and values are words of the allowed sizes.
pub supervise-create : (rs : List Round) → AreFresh rs → AreTexts rs → IsSafe (supervise create rs)
unfolding create
supervise-create rs fresh t = supervise-IsSafe rs create fresh refl t
