-- ===== src/Platform/Commits.antt =====
-- internal/platform/kafkax/keyed.go: which offset may be committed while records of one partition are
-- handled out of order. Offsets are not negative and stay below 2^63.
pub mod Gap
pub mod Own
pub mod Kept
pub mod Consumption
use momotaro.Prelude.{
  ℕ, zero, suc, ◌+◌, ◌==◌, Bool, true, false, Option, none, some, List, [], ◌∷◌, ltb, length,
  if◌then◌else◌,
}
use momotaro.Prelude.Text.{Bytes}

-- What the tracker and the committer read of kgo.Record.
pub record KafkaRecord : Type 0 where
  pub partition : ℕ
  pub offset : ℕ

-- What commitTracker keeps of one partition: the first offset not yet folded into a commit, and the
-- completed records past it. `observe` makes both entries of the maps at once.
pub record Progress : Type 0 where
  pub next : ℕ
  pub completed : List KafkaRecord

-- commitTracker.
abbrev pub Tracker : Type 0
Tracker = ℕ → Option Progress

abbrev pub new_commit_tracker : Tracker
new_commit_tracker partition = none

-- A map's reading, deletion and writing at an offset.
unfoldable pub find_offset : ℕ → List KafkaRecord → Option KafkaRecord
find_offset o [] = none
find_offset o (r ∷ recs) = if r.offset == o then some r else find_offset o recs

unfoldable pub delete_offset : ℕ → List KafkaRecord → List KafkaRecord
delete_offset o [] = []
delete_offset o (r ∷ recs) =
    let rest = delete_offset o recs in if r.offset == o then rest else r ∷ rest

unfoldable pub put_offset : KafkaRecord → List KafkaRecord → List KafkaRecord
unfolding delete_offset
put_offset r recs = r ∷ delete_offset r.offset recs

abbrev pub store : ℕ → Progress → Tracker → Tracker
store partition g t p = if p == partition then some g else t p

-- `observe`.
unfoldable pub observe : KafkaRecord → Tracker → Tracker
observe r t = elim (t r.partition) [
  | none ↦ store r.partition (record { next = r.offset; completed = [] }) t
  | some g ↦ t
]

-- The loop of `complete`; its fuel is the number of the records, one of which goes in each round.
unfoldable pub advance : ℕ → Progress → Option KafkaRecord → Option KafkaRecord × Progress
unfolding find_offset delete_offset
advance zero g advanced = (advanced, g)
advance (suc fuel) g advanced = elim (find_offset g.next g.completed) [
  | none ↦ (advanced, g)
  | some r ↦
      advance fuel (record { next = suc g.next; completed = delete_offset g.next g.completed })
        (some r)
]

-- `complete` in the record's partition.
unfoldable pub complete_in : KafkaRecord → Progress → Option KafkaRecord × Progress
unfolding advance put_offset
complete_in r g =
    if ltb r.offset g.next
    then (none, g)
    else (let completed = put_offset r g.completed in
        advance (length completed) (record { next = g.next; completed = completed }) none)

abbrev stored : ℕ → Tracker → Option KafkaRecord × Progress → Option KafkaRecord × Tracker
stored partition t (advanced, g) = (advanced, store partition g t)

-- `complete`: the record to commit, if the offset moved. The outer `none` is the panic of writing to
-- the map of a partition that was never observed.
unfoldable pub complete : KafkaRecord → Tracker → Option (Option KafkaRecord × Tracker)
unfolding complete_in
complete r t = elim (t r.partition) [
  | none ↦ none
  | some g ↦ some (stored r.partition t (complete_in r g))
]

-- A committer: its tracker, the commits it has asked for, and whether one of them has failed.
pub record Committer : Type 0 where
  pub tracker : Tracker
  pub commits : List KafkaRecord
  pub broken : Bool

-- A round of `runCommitter` for one completed record; `commit` says whether the broker accepts.
unfoldable pub commit_one :
    (KafkaRecord → Bool) → Committer → Option KafkaRecord × Tracker → Committer
commit_one commit c (none, t) = record c { tracker = t }
commit_one commit c (some r, t) =
    if c.broken
    then record c { tracker = t }
    else record { tracker = t; commits = r ∷ c.commits; broken = if commit r then false else true }

unfoldable pub committer_round : (KafkaRecord → Bool) → KafkaRecord → Committer → Option Committer
unfolding complete commit_one
committer_round commit r c = elim (complete r c.tracker) [
  | none ↦ none
  | some moved ↦ some (commit_one commit c moved)
]
