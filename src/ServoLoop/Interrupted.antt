-- ===== src/ServoLoop/Interrupted.antt =====
-- A call that comes between the two locked parts in which a turn advances a chunk.
use package.flexiv_control.ServoLoop.{
  ServoLoop, exhausted, on_robot, pull, put, set_cartesian_target, enqueue_chunk,
}
use package.flexiv_control.ServoLoop.Turn.{Snapshot, observe, turns}
use package.flexiv_control.ServoLoop.Manual.{IsAimed, Sees, turns-Keeps, observe-Sees}
use flexiv_control.Common.{true, Option, some, List, [], ◌∷◌, ◌≡◌, refl}
use flexiv_control.Common.Result.{Result, ok, err}
use flexiv_control.Common.Exec.{Exec, Post, Hoare, Hoare-bind, Hoare-post, attempt, ◌>>=◌, ◌>>◌}
use flexiv_control.Number.{Number}
use flexiv_control.Types.{Pose, GripperCommand}
use flexiv_control.ActionChunk.{CartesianChunk}
use flexiv_control.Interpolation.{Tick}
use flexiv_control.Backend.{Backend}
use flexiv_control.Robot.{Robot}

module _ {F : Type 0} ⦃n : Number F⦄ {B : Type 0} (ops : Backend F B) where
  -- What the turn after some turns reads.
  abbrev pub later : List (F × F × F) → (s p o : F) → Exec (ServoLoop F B) (Snapshot F)
  later times s p o = turns ops times >> observe ops s p o

  later-Sees :
      (pose : Pose F) (stamp s p o : F) (times : List (F × F × F)) (l : ServoLoop F B)
      → IsAimed pose stamp l
      → Post
          (λ sn l'. Sees ops pose stamp o sn × IsAimed pose stamp l')
          (IsAimed pose stamp)
          (later times s p o l)
  later-Sees pose stamp s p o times l aimed =
      (Hoare-bind _ _ (turns-Keeps ops pose stamp times) λ u. observe-Sees ops pose stamp s p o).at
        l aimed

  -- A pose that a caller sets while the loop is between the two parts is lost: the chunk is no longer
  -- active, and yet every later turn follows the setpoint of the chunk, whose stamp is later
  -- than the call's, until another call.
  pub set_cartesian_target-overwritten :
      (pose : Pose F) (g : Option (GripperCommand F)) (at_set at_pull s p o : F)
      (times : List (F × F × F)) (t : Tick F) (ts : List (Tick F)) (l : ServoLoop F B)
      → l.chunk_iter ≡ some (t ∷ ts)
      → Post
          (λ sn l'. Sees ops t.pose at_pull o sn × IsAimed t.pose at_pull l')
          (IsAimed t.pose at_pull)
          ((pull >>= λ x.
              set_cartesian_target pose g at_set >> (put at_pull x >> later times s p o))
            l)
  unfolding pull put set_cartesian_target ◌>>=◌
  set_cartesian_target-overwritten pose g at_set at_pull s p o times t ts l active =
      rw active (later-Sees t.pose at_pull s p o times _ (refl, refl, refl, refl))

  abbrev Targets : Pose F → ServoLoop F B → Type 0
  Targets pose l = l.target_pose ≡ some pose

  on_robot-Targets :
      {A : Type 0} (pose : Pose F) (m : Exec (Robot F B) A)
      → Hoare (Targets pose) (on_robot m) (λ _. Targets pose) (λ _. Unit {0})
  unfolding on_robot
  on_robot-Targets {A} pose m = record { at = λ l i. either (m l.robot) l i }
    where
      either :
          (o : Result A × Robot F B) (l : ServoLoop F B)
          → l.target_pose ≡ some pose
          → Post (λ _ l. l.target_pose ≡ some pose) (λ _. Unit {0}) (o.0, record l { robot = o.1 })
      either (ok a, r) l i = i
      either (err e, r) l i = tt

  abbrev Staged : Pose F → F → ServoLoop F B → Type 0
  Staged pose stamp l = (l.cartesian ≡ true) × Targets pose l × (l.cmd_stamp ≡ stamp)

  enqueued :
      (chunk : CartesianChunk F) (at_enqueue : F) (pose : Pose F)
      → Hoare
          (Targets pose)
          (enqueue_chunk ops chunk at_enqueue)
          (λ _. Staged pose at_enqueue)
          (λ _. Unit {0})
  unfolding enqueue_chunk
  enqueued chunk at_enqueue pose =
      Hoare-bind {R = λ _. Staged pose at_enqueue} _ _ (on_robot-Targets pose _) λ state.
        Hoare-bind {Q = λ _. Targets pose} {R = λ _. Staged pose at_enqueue} _ _
          (record { at = λ l i. attempted _ l i }) λ c. record { at = λ l i. (refl, i, refl) }
    where
      attempted :
          {A : Type 0} (a : Result A) (l : ServoLoop F B)
          → l.target_pose ≡ some pose
          → Post (λ _ l. l.target_pose ≡ some pose) (λ _. Unit {0}) (attempt a l)
      attempted (ok a) l i = i
      attempted (err e) l i = tt

  pull-ends :
      (pose : Pose F)
      → Hoare
          (λ l. (l.chunk_iter ≡ some []) × Targets pose l)
          pull
          (λ x l. (x ≡ exhausted) × Targets pose l)
          (λ _. Unit {0})
  unfolding pull
  pull-ends pose = record { at = λ l i. rw i.0 (refl, i.1) }

  put-IsAimed :
      (pose : Pose F) (stamp at_pull : F)
      → Hoare (Staged pose stamp) (put at_pull exhausted) (λ _. IsAimed pose stamp) (λ _. Unit {0})
  unfolding put
  put-IsAimed pose stamp at_pull = record { at = λ l i. (i.0, i.1, refl, i.2) }

  -- A chunk that is staged while the loop is between the two parts, and the chunk before it is at its
  -- end, is lost: if the call returns, no chunk is active after the turn's second part, and
  -- every later turn follows the last pose of the old chunk, with the stamp of the call.
  pub enqueue_chunk-dropped :
      (chunk : CartesianChunk F) (at_enqueue at_pull s p o : F) (times : List (F × F × F))
      (pose : Pose F) (l : ServoLoop F B)
      → l.chunk_iter ≡ some []
      → l.target_pose ≡ some pose
      → Post
          (λ u l'.
            IsAimed pose at_enqueue l'
            × Post
                (λ sn l''. Sees ops pose at_enqueue o sn × IsAimed pose at_enqueue l'')
                (IsAimed pose at_enqueue)
                (later times s p o l'))
          (λ l'. Unit {0})
          ((pull >>= λ x. enqueue_chunk ops chunk at_enqueue >> put at_pull x) l)
  enqueue_chunk-dropped chunk at_enqueue at_pull s p o times pose l ends target =
      (Hoare-post (λ u l' aimed. (aimed, later-Sees pose at_enqueue s p o times l' aimed))
          (Hoare-bind {R = λ _. IsAimed pose at_enqueue} _ _ (pull-ends pose) λ x. record {
            at = λ l i. rw i.0 (
                (Hoare-bind _ _ (enqueued chunk at_enqueue pose)
                    λ u. put-IsAimed pose at_enqueue at_pull).at
                  l i.1);
          })).at
        l (ends, target)
