-- ===== src/Vr/Snapshot.antt =====
-- Snapshots of a replica (vr/snapshot.go). The file system is a parameter: what `SnapshotDiskData`
-- reads from the snapshot file (nil if that fails), and whether the writing succeeds. Bytes are
-- numbers below 256. The functions that the user registers are parameters too.
pub mod RoundTrip
use go_phat.Prelude.{
  ℕ, zero, suc, ◌+◌, ◌-◌, ◌*◌, ◌/◌, ◌%◌, Option, none, some, List, [], ◌∷◌, ◌++◌, Bool, true, false,
  not, leb, ltb, if◌then◌else◌,
}
use go_phat.Phatlog.{Log, has_entry, suffix}
use go_phat.Vr.State.{VrCommand, Replica}
use go_phat.Vr.Exec.{Exec, ok, stop, panicked, ◌>>=◌, ◌>>◌, pure, get, put}

-- `binary.LittleEndian.PutUint64`, and its 32-bit kin, with the number of bytes.
unfoldable pub put_uint : ℕ → ℕ → List ℕ
put_uint zero n = []
put_uint (suc width) n = n % 256 ∷ put_uint width (n / 256)

-- `binary.LittleEndian.Uint64` on a slice, with the rest; `none` if the slice is too short.
unfoldable pub get_uint : ℕ → List ℕ → Option (ℕ × List ℕ)
get_uint zero bytes = some (0, bytes)
get_uint (suc width) [] = none
get_uint (suc width) (b ∷ bytes) = elim (get_uint width bytes) [
  | none ↦ none
  | some (n, rest) ↦ some (b + 256 * n, rest)
]

module _ {C : Type 0} where
  set_snapshot_index : ℕ → Replica C → Replica C
  set_snapshot_index snap_index r = record r {
    snapshot_index = snap_index;
    rstate = record (r.rstate) { op_number = snap_index; commit_number = snap_index };
  }

  -- `LoadSnapshot`: a slice shorter than eight bytes panics. `load` is `LoadSnapshotFunc`.
  unfoldable pub load_snapshot : (List ℕ → List C → List C) → List ℕ → Exec C (Unit {0})
  unfolding set_snapshot_index
  load_snapshot load bytes w = elim (get_uint 8 bytes) [
    | none ↦ stop panicked w
    | some (snap_index, rest) ↦ ok tt (record w {
      replica =
          set_snapshot_index snap_index
            (record (w.replica) { context = load rest w.replica.context });
    })
  ]

  -- `TakeSnapshot`. `snapshot` is `SnapshotFunc`, which may fail; `written` says whether all of the
  -- file operations succeeded. The result is the new content of the snapshot file, if it changed.
  unfoldable pub take_snapshot :
      (List C → ℕ → Option (List ℕ × ℕ)) → (written : Bool) → Exec C (Option (List ℕ))
  take_snapshot snapshot written = do
    r ← get
    if leb r.rstate.commit_number r.snapshot_index then pure none else λ w.
        elim (snapshot r.context r.rstate.commit_number) [
          | none ↦ ok none w
          | some (bytes, snap_index) ↦
              if written
              then ok (some (put_uint 8 snap_index ++ bytes))
                  (record w { replica = record r { snapshot_index = snap_index } })
              else ok none w
        ]

  -- `RecoverInfoFromOpNumber`, given what `SnapshotDiskData` reads; a nil log panics.
  unfoldable pub recover_info_from_op_number :
      (disk : List ℕ) → ℕ → Exec C (Option (Log (VrCommand C)) × List ℕ)
  recover_info_from_op_number disk op w = elim w.replica.phatlog [
    | none ↦ stop panicked w
    | some l ↦ if has_entry l op then ok (some (suffix l op), []) w else ok (some l, disk) w
  ]
