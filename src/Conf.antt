-- ===== src/Conf.antt =====
-- src/conf.c: the settings of a configuration file. `struct setting` is a node of a chain; a node of
-- the chain has its address, and memory that has been freed is in no chain, so that a write to it
-- is the result `none`, as is any other step whose behaviour C leaves undefined.
pub mod Strings
pub mod Reader
pub mod Values
pub mod Chain
pub mod Found
pub mod Tail
pub mod Words
pub mod Extends
pub mod Reads
pub mod Lines
pub mod RoundTrip
pub mod Decimal
use miredo.Prelude.{
  ℕ, zero, suc, ◌-◌, ltb, ◌==◌, if◌then◌else◌, Bool, true, false, Option, none, some, List, [], ◌∷◌,
  ◌++◌,
}
use miredo.Conf.Strings.{same_name}

-- `struct setting`, with its address in place of the pointer to the next one.
pub record Setting : Type 0 where
  pub address : ℕ
  pub name : List ℕ
  pub value : List ℕ
  pub line : ℕ

-- What goes to the logger.
pub data Message : Type 0 where
  superfluous : List ℕ → ℕ → Message
  overly_long : ℕ → Message
  ignoring : ℕ → List ℕ → Message
  no_memory : Message
  read_error : Message
  open_error : Message
  invalid_integer : List ℕ → Message
  invalid_hostname : List ℕ → ℕ → Message
  invalid_prefix : ℕ → Message
  unknown_facility : List ℕ → ℕ → Message

-- `struct miredo_conf`: the chain from `head` on, and the address in `tail`.
pub record MiredoConf : Type 0 where
  pub chain : List Setting
  pub tail : ℕ

-- What a step leaves: the settings, what it logs, and its result.
pub record Step {ℓ} (A : Type ℓ) : Type ℓ where
  pub conf : MiredoConf
  pub log : List Message
  pub result : A

-- `miredo_conf_create`
unfoldable pub create : MiredoConf
create = record { chain = []; tail = 0 }

-- The warnings of `miredo_conf_clear`.
unfoldable pub warnings : ℕ → List Setting → List Message
warnings zero ss = []
warnings (suc show) [] = []
warnings (suc show) (s ∷ ss) = superfluous s.name s.line ∷ warnings show ss

unfoldable pub clear : MiredoConf → ℕ → MiredoConf × List Message
clear c show = (record c { chain = [] }, warnings show c.chain)

-- `conf->tail->next = parm`, for the new node at the end: what was behind the tail is cut off.
unfoldable pub link : ℕ → Setting → List Setting → Option (List Setting)
link tail parm [] = none
link tail parm (s ∷ ss) =
    let rest = link tail parm ss in
    if s.address == tail
    then some (s ∷ parm ∷ [])
    else elim rest [ none ↦ none | some ss' ↦ some (s ∷ ss') ]

-- The memory for a new setting, as `malloc` and `strdup` give it while a chain is there.
abbrev pub Malloc : Type 0
Malloc = List Setting → Option ℕ

-- `miredo_conf_set`
unfoldable pub set : Malloc → MiredoConf → List ℕ → List ℕ → ℕ → Option (Step Bool)
set malloc c name value line = elim (malloc c.chain) [
  | none ↦ some (record { conf = c; log = no_memory ∷ []; result = false })
  | some a ↦
      let parm : Setting = record { address = a; name = name; value = value; line = line } in
      let added : Option (List Setting) = elim c.chain [
        | [] ↦ some (parm ∷ [])
        | s ∷ ss ↦ link c.tail parm (s ∷ ss)
      ] in
      elim added [
        | none ↦ none
        | some chain ↦
            some (record { conf = record { chain = chain; tail = a }; log = []; result = true })
      ]
]

-- The loop of `miredo_conf_get`: the setting that is found, and the chain without it.
unfoldable pub take_out : List ℕ → List Setting → Option (Setting × List Setting)
take_out name [] = none
take_out name (p ∷ ps) =
    let rest = take_out name ps in
    if same_name p.name name
    then some (p, ps)
    else elim rest [ none ↦ none | some (q, qs) ↦ some (q, p ∷ qs) ]

-- `miredo_conf_get`: the setting stands for its value and its line.
unfoldable pub get : MiredoConf → List ℕ → MiredoConf × Option Setting
get c name = elim (take_out name c.chain) [
  | none ↦ (c, none)
  | some (p, chain) ↦ (record c { chain = chain }, some p)
]
