-- ===== src/Effect.antt =====
-- What a UDS handler may do: the process state it reads and changes, the frames it sends, and how
-- it ends. Exceptions are those of virtual_ecu/virtecu/uds.py.
use doip_playground.Base.{
  ◌==◌, if◌then◌else◌, Bytes, ℕ, ◌≡◌, refl, ◌⊎◌, inl, inr, Bool, Option, List,
}
use doip_playground.Uds.{Sid}

-- `SessionState` of core.py. `s3_task` is the time at which the armed S3 timer fires.
pub record SessionState : Type 0 where
  pub session_type : ℕ
  pub security_level : ℕ
  pub seed_pending : Option ℕ
  pub security_attempts : ℕ
  pub tester_addr : Option ℕ
  pub activated : Bool
  pub s3_task : Option ℕ

-- The mutable state of the process: time, the `SessionState` objects by identity, the next fresh
-- identity, `EcuCore._session_states`, `DidStore._values`, `EcuCore.data["routines"]`, and the UDS
-- messages given to the responder, oldest first.
pub record World : Type 0 where
  pub now : ℕ
  pub objects : ℕ → SessionState
  pub next_object : ℕ
  pub session_states : List (ℕ × ℕ)
  pub did_values : List (ℕ × Bytes)
  pub routine_state : Option (List (ℕ × Bool))
  pub sent : List Bytes

-- `python_error` is any `Exception` that the code does not name; no `BaseException` but a
-- cancellation is raised. The second field of
-- `negative_response` is the optional `sid`.
pub data Exception : Type 0 where
  negative_response : ℕ → Option Sid → Exception
  suppress_response : Exception
  abort_connection : Bytes → Exception
  cancelled : Exception
  python_error : Exception

pub data Run (A : Type 0) : Type 0 where
  returned : A → World → Run A
  raised : Exception → World → Run A

abbrev pub Action : Type 0 → Type 0
Action A = World → Run A

-- What a coroutine does behind an `await` that returned; an exception goes past it.
infixl 5 ◌>>=◌
infixl 5 ◌>>◌
module _ {A B : Type 0} where
  abbrev pub ◌>>=◌ : Action A → (A → Action B) → Action B
  ◌>>=◌ first next w = elim (first w) [ returned a w' ↦ next a w' | raised e w' ↦ raised e w' ]

abbrev pub ◌>>◌ : {B : Type 0} → Action (Unit {0}) → Action B → Action B
first >> next = first >>= λ _. next

abbrev pub return : {A : Type 0} → A → Action A
return a w = returned a w

abbrev pub throw : {A : Type 0} → Exception → Action A
throw e w = raised e w

abbrev pub get : Action World
get w = returned w w

abbrev pub modify : (World → World) → Action (Unit {0})
modify f w = returned tt (f w)

-- The world that a run ends in.
abbrev pub final : {A : Type 0} → Run A → World
final (returned a w) = w
final (raised e w) = w

-- `objects[i]` replaced
abbrev pub update : (ℕ → SessionState) → ℕ → SessionState → ℕ → SessionState
update f i s j = if j == i then s else f j

pub >>=-returned :
    {A B : Type 0} (m : Action A) (f : A → Action B) (w w' : World) (b : B)
    → (m >>= f) w ≡ returned b w'
    → (a : A) × (v : World) × (m w ≡ returned a v) × (f a v ≡ returned b w')
>>=-returned m f w w' b e = split (m w) refl e
  where
    split :
        (r : Run _)
        → m w ≡ r
        → (elim r [ returned a v ↦ f a v | raised x v ↦ raised x v ]) ≡ returned b w'
        → (a : _) × (v : World) × (m w ≡ returned a v) × (f a v ≡ returned b w')
    split (returned a v) p h = (a, v, p, h)
    split (raised x v) p h = cc

-- How a run ends, with its equation.
pub Run-cases :
    {A : Type 0} (r : Run A)
    → ((a : A) × (w : World) × (r ≡ returned a w))
      ⊎ ((e : Exception) × (w : World) × (r ≡ raised e w))
Run-cases (returned a w) = inl (a, w, refl)
Run-cases (raised e w) = inr (e, w, refl)
