-- ===== src/Controller/Shutdown.antt =====
-- controller/controller.go: the workers that `New` starts, `beginCallback` and `Shutdown`, in any
-- interleaving. A step is one access to the shared fields, or a piece of work of a callback or a worker.
pub mod Ending
use mqtt_raspberry_controlle.Base.{
  ℕ, zero, suc, ◌+◌, ◌-◌, ◌<◌, Bool, true, false, not, ◌||◌, List, [], ◌∷◌, codes, same,
  if◌then◌else◌, ◌≡◌, refl, ◌∙◌, arith, Bool-cases, inl, inr,
}
use mqtt_raspberry_controlle.Config.{Config, Entity}

-- `count` is the counter of the wait group; `once` says that the function of shutdownOnce has run, and
-- `ended` that shutdownDone is closed. `callbacks` and `workers` are those that run, and `work` counts
-- what they have done.
pub record Activity : Type 0 where
  pub accepting : Bool
  pub cancelled : Bool
  pub count : ℕ
  pub once : Bool
  pub ended : Bool
  pub callbacks : ℕ
  pub workers : ℕ
  pub work : ℕ

-- New starts a worker for each switch and each button.
unfoldable pub worker_count : List Entity → ℕ
worker_count [] = 0
worker_count (entity ∷ entities) =
    (if same entity.kind (codes "switch") || same entity.kind (codes "button") then 1 else 0)
    + worker_count entities

unfoldable pub started : Config → Activity
started cfg = record {
  accepting = true;
  cancelled = false;
  count = worker_count cfg.entities;
  once = false;
  ended = false;
  callbacks = 0;
  workers = worker_count cfg.entities;
  work = 0;
}

-- beginCallback, with the callback that goes on behind it.
unfoldable pub begin_activity : Activity → Activity
begin_activity s =
    if not s.accepting || s.cancelled
    then s
    else record s { count = s.count + 1; callbacks = suc s.callbacks }

-- c.wg.Done() of a callback and of a worker.
unfoldable pub end_activity : Activity → Activity
end_activity s = record s { count = s.count - 1; callbacks = s.callbacks - 1 }

unfoldable pub end_worker : Activity → Activity
end_worker s = record s { count = s.count - 1; workers = s.workers - 1 }

-- c.shutdownOnce.Do
unfoldable pub shut_down_once : Activity → Activity
shut_down_once s =
    if s.once then s else record s { once = true; accepting = false; cancelled = true }

-- A worker ends when the context is done, which a signal may bring about too. Shutdown returns without
-- an error once `ended` holds.
pub data Change : Activity → Activity → Type 0 where
  begins : (s : Activity) → Change s (begin_activity s)
  callback_works : (s : Activity) → zero < s.callbacks → Change s (record s { work = suc s.work })
  callback_ends : (s : Activity) → zero < s.callbacks → Change s (end_activity s)
  worker_works : (s : Activity) → zero < s.workers → Change s (record s { work = suc s.work })
  worker_ends : (s : Activity) → zero < s.workers → s.cancelled ≡ true → Change s (end_worker s)
  signalled : (s : Activity) → Change s (record s { cancelled = true })
  shuts_down : (s : Activity) → Change s (shut_down_once s)
  all_ended : (s : Activity) → s.once ≡ true → s.count ≡ 0 → Change s (record s { ended = true })

pub data Changes : Activity → Activity → Type 0 where
  unchanged : (s : Activity) → Changes s s
  changed : (s t u : Activity) → Changes s t → Change t u → Changes s u
