-- ===== src/Privproc/Ipc.antt =====
-- src/miredo.c: `miredo_send` and `miredo_recv`, which pass a message of a known size over a stream
-- socket. What `send` and `recv` return, call by call, is a parameter.
pub mod Delivery
use miredo.Prelude.{
  ℕ, zero, suc, ◌-◌, ◌==◌, if◌then◌else◌, length, take, drop, Bool, true, false, Option, none, some,
  List, [], ◌∷◌, ◌++◌,
}

-- A call of `send`: EINTR, another error or 0, or the count of bytes it took.
pub data Sent : Type 0 where
  interrupted : Sent
  failed : Sent
  took : ℕ → Sent

-- A call of `recv`: EINTR, another error, or the bytes it gave, none at the end of the stream.
pub data Received : Type 0 where
  interrupted : Received
  failed : Received
  gave : List ℕ → Received

-- What has passed, whether true is returned, and the calls that follow. No result: the call waits.
pub record Passed (A : Type 0) : Type 0 where
  pub bytes : List ℕ
  pub ok : Bool
  pub rest : List A

abbrev pub passed_first : {A : Type 0} → List ℕ → Option (Passed A) → Option (Passed A)
passed_first xs none = none
passed_first xs (some r) = some (record r { bytes = xs ++ r.bytes })

-- `miredo_send`, on the bytes that are left.
unfoldable pub miredo_send : List ℕ → List Sent → Option (Passed Sent)
miredo_send [] calls = some (record { bytes = []; ok = true; rest = calls })
miredo_send (x ∷ xs) [] = none
miredo_send (x ∷ xs) (interrupted ∷ calls) = miredo_send (x ∷ xs) calls
miredo_send (x ∷ xs) (failed ∷ calls) = some (record { bytes = []; ok = false; rest = calls })
miredo_send (x ∷ xs) (took l ∷ calls) =
    let rest = miredo_send (drop l (x ∷ xs)) calls in
    if l == 0
    then some (record { bytes = []; ok = false; rest = calls })
    else passed_first (take l (x ∷ xs)) rest

-- `miredo_recv`, with so many bytes left to receive.
unfoldable pub miredo_recv : ℕ → List Received → Option (Passed Received)
miredo_recv zero calls = some (record { bytes = []; ok = true; rest = calls })
miredo_recv (suc n) [] = none
miredo_recv (suc n) (interrupted ∷ calls) = miredo_recv (suc n) calls
miredo_recv (suc n) (failed ∷ calls) = some (record { bytes = []; ok = false; rest = calls })
miredo_recv (suc n) (gave ys ∷ calls) =
    let rest = miredo_recv (suc n - length ys) calls in
    if length ys == 0
    then some (record { bytes = []; ok = false; rest = calls })
    else passed_first ys rest
