-- ===== src/Vr/Snapshot/RoundTrip.antt =====
-- A snapshot that one replica takes and another one loads (vr/snapshot.go).
use native.Mathlib.Nat.{pow-suc}
use go_phat.Prelude.{
  ℕ, zero, suc, ◌+◌, ◌*◌, ◌/◌, ◌%◌, ◌^◌, ◌<◌, ◌≡◌, refl, Option, some, List, ◌++◌, true, false, leb,
  u64_mod, arith,
}
use go_phat.Vr.Exec.{World, ok}
use go_phat.Vr.Snapshot.{put_uint, get_uint, take_snapshot, load_snapshot}

-- What was written with so many bytes is read back, and the rest is left.
pub get_uint-put_uint :
    (width n : ℕ) (rest : List ℕ)
    → n < 256 ^ width
    → get_uint width (put_uint width n ++ rest) ≡ some (n, rest)
unfolding get_uint put_uint
get_uint-put_uint zero n rest h = let e : 0 ≡ n = omega arith in rw e refl
get_uint-put_uint (suc width) n rest h =
    let small : n / 256 < 256 ^ width = omega (arith, h, pow-suc 256 width) in
    let whole : n % 256 + 256 * (n / 256) ≡ n = omega arith in
    rw (get_uint-put_uint width (n / 256) rest small) (rw whole refl)

module _ {C : Type 0} where
  -- A snapshot that is taken and written, and loaded by another replica: that replica's snapshot
  -- index, op number and commit number are the index of the snapshot, and the user's function is
  -- given the bytes of the snapshot.
  pub load_snapshot-take_snapshot :
      (snapshot : List C → ℕ → Option (List ℕ × ℕ)) (load : List ℕ → List C → List C)
      (w v : World C) (bytes : List ℕ) (snap_index : ℕ)
      → w.replica.snapshot_index < w.replica.rstate.commit_number
      → snapshot w.replica.context w.replica.rstate.commit_number ≡ some (bytes, snap_index)
      → snap_index < u64_mod
      → (file : List ℕ) × (take_snapshot snapshot true w
          ≡ ok
              (some file)
              (record w { replica = record (w.replica) { snapshot_index = snap_index } }))
        × (load_snapshot load file v
            ≡ ok tt (record v {
              replica = record (v.replica) {
                context = load bytes v.replica.context;
                snapshot_index = snap_index;
                rstate = record (v.replica.rstate) {
                  op_number = snap_index;
                  commit_number = snap_index;
                };
              };
            }))
  unfolding take_snapshot load_snapshot
  load_snapshot-take_snapshot snapshot load w v bytes snap_index newer taken lt =
      let due : leb w.replica.rstate.commit_number w.replica.snapshot_index ≡ false =
        ground arith in
      (
        put_uint 8 snap_index ++ bytes,
        simp (due, taken, take_snapshot) refl,
        rw (get_uint-put_uint 8 snap_index bytes (omega arith), load_snapshot) refl,
      )
