-- ===== src/Semaphore/Fallback/Bounds.antt =====
-- Whatever the distributed semaphore does, the semaphore of the process keeps its bounds.
use xkit.Prelude.{ℕ, ◌≡◌, Option, none, some, List, [], ◌∷◌, String, ℤ}
use xkit.Semaphore.Validate.{Ctx, AcquireOptions, QueryOptions}
use xkit.Semaphore.Local.{LocalSemaphore, Round}
use xkit.Semaphore.Local.Safety.{AllWithin}
use xkit.Semaphore.Local.Calls.{Call, try_acquires, acquires, call, CallFits}
use xkit.Semaphore.Fallback.{
  Distributed, FallbackSemaphore, Asking, asks_once, asks_often, try_acquire, acquire, close,
}
use xkit.Semaphore.Fallback.Queries.{query}

-- A call of the fallback semaphore, or of a permit or the clean-up of the semaphore of the process.
pub data Event : Type 0 where
  tries : Ctx → String → AcquireOptions → Round → Event
  asks : Ctx → String → AcquireOptions → (ℕ → Round) → Event
  queries : Ctx → String → QueryOptions → ℤ → Event
  own_calls : Call → Event
  shuts : Ctx → Event

abbrev pub own_call : Call → Option LocalSemaphore → Option LocalSemaphore
own_call c none = none
own_call c (some s) = some (call c s)

-- The limits that an event asks for, by its shares.
abbrev pub EventFits : ℕ → ℕ → ℤ → Event → Type 0
EventFits cap quota pods (tries ctx resource o e) =
    CallFits cap quota pods (try_acquires ctx resource o e)
EventFits cap quota pods (asks ctx resource o env) =
    CallFits cap quota pods (acquires ctx resource o env)
EventFits cap quota pods (own_calls c) = CallFits cap quota pods c
EventFits cap quota pods _ = Unit

abbrev pub EventsFit : ℕ → ℕ → ℤ → List Event → Type 0
EventsFit cap quota pods [] = Unit
EventsFit cap quota pods (e ∷ es) = EventFits cap quota pods e × EventsFit cap quota pods es

module _ {D E P : Type 0} (remote : Distributed D E P) where
  pub event : Event → FallbackSemaphore D → FallbackSemaphore D
  event (tries ctx resource o e) f = (try_acquire remote ctx resource o e f).1
  event (asks ctx resource o env) f = (acquire remote ctx resource o env f).1
  event (queries ctx resource o now) f = (query remote ctx resource o now f).1
  event (own_calls c) f = record f { own = own_call c f.own }
  event (shuts ctx) f = (close remote ctx f).1

  pub events : List Event → FallbackSemaphore D → FallbackSemaphore D
  events [] f = f
  events (e ∷ es) f = events es (event e f)

module _ (cap quota : ℕ) (pods : ℤ) where
  -- The semaphore of the process, if there is one, is within its bounds.
  abbrev pub OwnWithin : Option LocalSemaphore → Type 0
  OwnWithin none = Unit
  OwnWithin (some s) = AllWithin cap quota s × (s.pod_count ≡ pods)

  abbrev Keeps : {D : Type 0} → FallbackSemaphore D → Type 0
  Keeps f = OwnWithin f.own × (f.pod_count ≡ pods)

  -- The limits of what is asked.
  abbrev AskFits : Ctx → String → AcquireOptions → Asking → Type 0
  AskFits ctx resource o (asks_once e) = CallFits cap quota pods (try_acquires ctx resource o e)
  AskFits ctx resource o (asks_often env) = CallFits cap quota pods (acquires ctx resource o env)
