-- ===== src/Metrics/Sequence.antt =====
-- robstride_driver/src/metrics.cpp: `AtomicMotorFeedback`, a sequence lock with one writer, next to
-- one reader; readers do not see each other. A run is a list of moves in any order, and each access of
-- an atomic member is a move. The accesses of `sequence_` are sequentially consistent and happen in the
-- order of the code, the relaxed ones of the other members only as far as that binds them: the stores
-- between the two changes of the sequence in any order, the loads at any time after the first
-- load of the sequence and before the return, that is, possibly after the second one. A temperature is
-- its value in place of its bits.
use robstride_ros.Prelude.{
  ℕ, ◌%◌, Bool, true, false, not, ◌&&◌, Option, none, some, List, [], ◌∷◌, if◌then◌else◌, ◌==◌, ltb,
  bump_u64,
}
use robstride_ros.Double.{Double}
use robstride_ros.Driver.State.{MotorFeedbackSample}
use robstride_ros.Driver.Initialize.{no_sample}

-- The members after `sequence_`, in the order in which both functions go through them.
unfoldable pub copy_member :
    {W : Type 0} → ℕ → MotorFeedbackSample W → MotorFeedbackSample W → MotorFeedbackSample W
copy_member k source target =
    if k == 0
    then record target { count = source.count }
    else if k == 1
    then record target { last_received_at_ns = source.last_received_at_ns }
    else if k == 2
    then record target { maximum_gap_ns = source.maximum_gap_ns }
    else if k == 3
    then record target { mode = source.mode }
    else if k == 4
    then record target { fault_flags = source.fault_flags }
    else record target { temperature = source.temperature }

-- Which of the six members have been accessed.
abbrev pub Done : Type 0
Done = ℕ → Bool

abbrev pub nothing : Done
nothing k = false

abbrev pub with : ℕ → Done → Done
with k f i = if i == k then true else f i

abbrev pub all_done : Done → Bool
all_done f = f 0 && f 1 && f 2 && f 3 && f 4 && f 5

-- Where `store` is: outside, or the sample and the members that are written.
pub data Storing (W : Type 0) : Type 0 where
  idle : Storing W
  writing : MotorFeedbackSample W → Done → Storing W

-- Where `load` is: at the loop's head; after `before`, with the members that are read, and `after`, if
-- it is read; or returned.
pub data Loading (W : Type 0) : Type 0 where
  waiting : Loading W
  reading : ℕ → MotorFeedbackSample W → Done → Option ℕ → Loading W
  returned : MotorFeedbackSample W → Loading W

-- `stored`, the samples whose `store` has ended, newest first, is not in the code: it is there to say
-- what a `load` returns.
pub record Lock (W : Type 0) : Type 0 where
  pub sequence : ℕ
  pub sample : MotorFeedbackSample W
  pub storing : Storing W
  pub loading : Loading W
  pub stored : List (MotorFeedbackSample W)

-- A call of `store`, an access of `store`, a call of `load`, an access of `load`. The number says of
-- which member, where there is a choice; 6 is the second load of the sequence.
pub data Move (W : Type 0) : Type 0 where
  call_store : MotorFeedbackSample W → Move W
  write : ℕ → Move W
  call_load : Move W
  read : ℕ → Move W

module _ {W : Type 0} where
  -- The first `fetch_add`. There is one writing thread: a call while it writes does not happen.
  unfoldable pub begin_store : MotorFeedbackSample W → Lock W → Lock W
  begin_store s l = elim l.storing [
    | writing x f ↦ l
    | idle ↦ record l { sequence = bump_u64 l.sequence; storing = writing s nothing }
  ]

  -- A store of the member `k`, if it has not been, or the second `fetch_add` when all have been.
  unfoldable pub continue_store : ℕ → Lock W → Lock W
  unfolding copy_member
  continue_store k l = elim l.storing [
    | idle ↦ l
    | writing s f ↦
        if all_done f
        then record l { sequence = bump_u64 l.sequence; storing = idle; stored = s ∷ l.stored }
        else if ltb k 6 && not (f k)
        then record l { sample = copy_member k s l.sample; storing = writing s (with k f) }
        else l
  ]

  -- The comparison at the loop's end, when all loads have taken place.
  abbrev pub compare : ℕ → MotorFeedbackSample W → Done → Option ℕ → Loading W
  compare before x f none = reading before x f none
  compare before x f (some after) =
      if all_done f
      then (if before == after then returned x else waiting)
      else reading before x f (some after)

module _ {W : Type 0} ⦃d : Double W⦄ where
  unfoldable pub continue_load : ℕ → Lock W → Lock W
  unfolding copy_member
  continue_load k l = elim l.loading [
    | waiting ↦
        if l.sequence % 2 == 0
        then record l { loading = reading l.sequence no_sample nothing none }
        else l
    | reading before x f after ↦
        if ltb k 6
        then (if f k
            then l
            else record l { loading = compare before (copy_member k l.sample x) (with k f) after })
        else elim after [
          | some n ↦ l
          | none ↦ record l { loading = compare before x f (some l.sequence) }
        ]
    | returned x ↦ l
  ]

  unfoldable pub move : Move W → Lock W → Lock W
  move (call_store s) l = begin_store s l
  move (write k) l = continue_store k l
  move call_load l = record l { loading = waiting }
  move (read k) l = continue_load k l

  unfoldable pub run : List (Move W) → Lock W → Lock W
  unfolding move
  run [] l = l
  run (m ∷ moves) l = run moves (move m l)

  -- After the constructor, which stores a sample before any other thread has the object.
  abbrev pub fresh_lock : Lock W
  fresh_lock = record {
    sequence = 2;
    sample = no_sample;
    storing = idle;
    loading = waiting;
    stored = no_sample ∷ [];
  }
