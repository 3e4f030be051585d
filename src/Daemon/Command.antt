-- ===== src/Daemon/Command.antt =====
-- src/main.c: the command line of the daemons, in `miredo_main`. What `getopt_long` returns, option by
-- option, is a parameter.
use mathlib.Core.Bool.{false≢true}
use miredo.Prelude.{
  ◌≡◌, sym, subst, append-nil, ap, Bool, true, false, Option, none, some, List, [], ◌∷◌, ◌++◌,
}

-- A result of `getopt_long`, with its argument.
pub data Switch {ℓ} (A : Type ℓ) : Type ℓ where
  conf : A → Switch A
  foreground : Switch A
  help : Switch A
  pidfile : A → Switch A
  user : A → Switch A
  chrootdir : A → Switch A
  version : Switch A
  unknown : Switch A

-- The variables that the options set.
pub record Flags {ℓ} (A : Type ℓ) : Type ℓ where
  pub conffile : Option A
  pub username : Option A
  pub pidfile : Option A
  pub chrootdir : Option A
  pub in_foreground : Bool

-- Where `miredo_main` returns before it does anything else.
pub data Ending : Type 0 where
  usage : Ending
  miredo_version : Ending
  quick_usage : Ending
  error_dup : Ending
  error_extra : Ending

pub data Scan {ℓ} (A : Type ℓ) : Type ℓ where
  ends : Ending → Scan A
  goes_on : Flags A → Scan A

module _ {ℓ} {A : Type ℓ} where
  -- `ONETIME_SETTING`: the variable after an option with this argument, none if it has been set.
  abbrev pub onetime_setting : Option A → A → Option (Option A)
  onetime_setting none a = some (some a)
  onetime_setting (some b) a = none

  -- The loop over the options.
  unfoldable pub scan_switches : Flags A → List (Switch A) → Scan A
  scan_switches f [] = goes_on f
  scan_switches f (conf a ∷ ss) = elim (onetime_setting f.conffile a) [
    | none ↦ ends error_dup
    | some v ↦ scan_switches (record f { conffile = v }) ss
  ]
  scan_switches f (foreground ∷ ss) = scan_switches (record f { in_foreground = true }) ss
  scan_switches f (help ∷ ss) = ends usage
  scan_switches f (pidfile a ∷ ss) = elim (onetime_setting f.pidfile a) [
    | none ↦ ends error_dup
    | some v ↦ scan_switches (record f { pidfile = v }) ss
  ]
  scan_switches f (user a ∷ ss) = elim (onetime_setting f.username a) [
    | none ↦ ends error_dup
    | some v ↦ scan_switches (record f { username = v }) ss
  ]
  scan_switches f (chrootdir a ∷ ss) = elim (onetime_setting f.chrootdir a) [
    | none ↦ ends error_dup
    | some v ↦ scan_switches (record f { chrootdir = v }) ss
  ]
  scan_switches f (version ∷ ss) = ends miredo_version
  scan_switches f (unknown ∷ ss) = ends quick_usage

  abbrev pub no_flags : Flags A
  no_flags = record {
    conffile = none;
    username = none;
    pidfile = none;
    chrootdir = none;
    in_foreground = false;
  }

  -- The options and the arguments behind them: the variables, and the server's name if there is one.
  unfoldable pub read_command : List (Switch A) → List A → Scan A × Option A
  read_command ss args = elim (scan_switches no_flags ss) [
    | ends e ↦ (ends e, none)
    | goes_on f ↦ elim args [
      | [] ↦ (goes_on f, none)
      | a ∷ rest ↦ elim rest [ [] ↦ (goes_on f, some a) | b ∷ more ↦ (ends error_extra, none) ]
    ]
  ]

  -- The arguments of all options of one kind.
  abbrev conf_args : Switch A → List A
  conf_args (conf a) = a ∷ []
  conf_args s = []

  abbrev pidfile_args : Switch A → List A
  pidfile_args (pidfile a) = a ∷ []
  pidfile_args s = []

  abbrev user_args : Switch A → List A
  user_args (user a) = a ∷ []
  user_args s = []

  abbrev chrootdir_args : Switch A → List A
  chrootdir_args (chrootdir a) = a ∷ []
  chrootdir_args s = []

  abbrev all_args : (Switch A → List A) → List (Switch A) → List A
  all_args of_kind [] = []
  all_args of_kind (s ∷ ss) = of_kind s ++ all_args of_kind ss

  abbrev to_list : Option A → List A
  to_list none = []
  to_list (some a) = a ∷ []

  -- From some variables on, the variables are what they were, then what the options say.
  record Gathers (f : Flags A) (ss : List (Switch A)) (g : Flags A) : Type ℓ where
    conffile : to_list g.conffile ≡ to_list f.conffile ++ all_args conf_args ss
    pidfile : to_list g.pidfile ≡ to_list f.pidfile ++ all_args pidfile_args ss
    username : to_list g.username ≡ to_list f.username ++ all_args user_args ss
    chrootdir : to_list g.chrootdir ≡ to_list f.chrootdir ++ all_args chrootdir_args ss

  abbrev is_on : Scan A → Bool
  is_on (ends x) = false
  is_on (goes_on f) = true

  abbrev flags_of : Scan A → Flags A
  flags_of (ends x) = no_flags
  flags_of (goes_on f) = f

  no_goes_on : (x : Ending) (g : Flags A) → ends x ≡ goes_on g → ⊥
  no_goes_on x g e = false≢true (ap is_on e)

  goes_on-Gathers : (f g : Flags A) → goes_on f ≡ goes_on g → Gathers f [] g
  goes_on-Gathers f g e = subst (Gathers f []) (ap flags_of e) (record {
    conffile = sym (append-nil (to_list f.conffile));
    pidfile = sym (append-nil (to_list f.pidfile));
    username = sym (append-nil (to_list f.username));
    chrootdir = sym (append-nil (to_list f.chrootdir));
  })

  set_conffile-Gathers :
      (f g : Flags A) (v : Option A) (a : A) (ss : List (Switch A))
      → ((f' : Flags A) → scan_switches f' ss ≡ goes_on g → Gathers f' ss g)
      → scan_switches (record f { conffile = v }) (conf a ∷ ss) ≡ goes_on g
      → Gathers (record f { conffile = v }) (conf a ∷ ss) g
  unfolding scan_switches
  set_conffile-Gathers f g none a ss ih e =
      let r = ih (record f { conffile = some a }) e in
      record {
        conffile = r.conffile;
        pidfile = r.pidfile;
        username = r.username;
        chrootdir = r.chrootdir;
      }
  set_conffile-Gathers f g (some b) a ss ih e = absurd (no_goes_on _ g e)

  set_pidfile-Gathers :
      (f g : Flags A) (v : Option A) (a : A) (ss : List (Switch A))
      → ((f' : Flags A) → scan_switches f' ss ≡ goes_on g → Gathers f' ss g)
      → scan_switches (record f { pidfile = v }) (pidfile a ∷ ss) ≡ goes_on g
      → Gathers (record f { pidfile = v }) (pidfile a ∷ ss) g
  unfolding scan_switches
  set_pidfile-Gathers f g none a ss ih e =
      let r = ih (record f { pidfile = some a }) e in
      record {
        conffile = r.conffile;
        pidfile = r.pidfile;
        username = r.username;
        chrootdir = r.chrootdir;
      }
  set_pidfile-Gathers f g (some b) a ss ih e = absurd (no_goes_on _ g e)

  set_username-Gathers :
      (f g : Flags A) (v : Option A) (a : A) (ss : List (Switch A))
      → ((f' : Flags A) → scan_switches f' ss ≡ goes_on g → Gathers f' ss g)
      → scan_switches (record f { username = v }) (user a ∷ ss) ≡ goes_on g
      → Gathers (record f { username = v }) (user a ∷ ss) g
  unfolding scan_switches
  set_username-Gathers f g none a ss ih e =
      let r = ih (record f { username = some a }) e in
      record {
        conffile = r.conffile;
        pidfile = r.pidfile;
        username = r.username;
        chrootdir = r.chrootdir;
      }
  set_username-Gathers f g (some b) a ss ih e = absurd (no_goes_on _ g e)

  set_chrootdir-Gathers :
      (f g : Flags A) (v : Option A) (a : A) (ss : List (Switch A))
      → ((f' : Flags A) → scan_switches f' ss ≡ goes_on g → Gathers f' ss g)
      → scan_switches (record f { chrootdir = v }) (chrootdir a ∷ ss) ≡ goes_on g
      → Gathers (record f { chrootdir = v }) (chrootdir a ∷ ss) g
  unfolding scan_switches
  set_chrootdir-Gathers f g none a ss ih e =
      let r = ih (record f { chrootdir = some a }) e in
      record {
        conffile = r.conffile;
        pidfile = r.pidfile;
        username = r.username;
        chrootdir = r.chrootdir;
      }
  set_chrootdir-Gathers f g (some b) a ss ih e = absurd (no_goes_on _ g e)

  -- If the loop over the options ends well, each variable holds the argument of the only option of its
  -- kind, or nothing if there is none.
  scan_switches-Gathers :
      (f : Flags A) (ss : List (Switch A)) (g : Flags A)
      → scan_switches f ss ≡ goes_on g
      → Gathers f ss g
  unfolding scan_switches
  scan_switches-Gathers f [] g e = goes_on-Gathers f g e
  scan_switches-Gathers f (conf a ∷ ss) g e =
      set_conffile-Gathers f g f.conffile a ss (λ f'. scan_switches-Gathers f' ss g) e
  scan_switches-Gathers f (foreground ∷ ss) g e =
      let r = scan_switches-Gathers (record f { in_foreground = true }) ss g e in
      record {
        conffile = r.conffile;
        pidfile = r.pidfile;
        username = r.username;
        chrootdir = r.chrootdir;
      }
  scan_switches-Gathers f (help ∷ ss) g e = absurd (no_goes_on _ g e)
  scan_switches-Gathers f (pidfile a ∷ ss) g e =
      set_pidfile-Gathers f g f.pidfile a ss (λ f'. scan_switches-Gathers f' ss g) e
  scan_switches-Gathers f (user a ∷ ss) g e =
      set_username-Gathers f g f.username a ss (λ f'. scan_switches-Gathers f' ss g) e
  scan_switches-Gathers f (chrootdir a ∷ ss) g e =
      set_chrootdir-Gathers f g f.chrootdir a ss (λ f'. scan_switches-Gathers f' ss g) e
  scan_switches-Gathers f (version ∷ ss) g e = absurd (no_goes_on _ g e)
  scan_switches-Gathers f (unknown ∷ ss) g e = absurd (no_goes_on _ g e)
