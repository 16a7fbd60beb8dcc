-- ===== src/Queuerpc/Transfer.antt =====
-- Snapshots of the queue between replicas (queueRPC/queueRPC.go, phatqueue/queue_server.go).
use go_phat.Prelude.{
  ℕ, String, ◌≡◌, refl, some, List, [], ◌∷◌, ◌++◌, true, false, Bool-cases, inl, inr,
}
use go_phat.Phatqueue.{MessageQueue}
use go_phat.Phatqueue.Server.{
  snapshot, QResponse, reply_with, ServerState, starts_encoding, Codec, turn, dispatch,
  copy_if_needed, writes, handle_snapshot, handle_load, encode_func, encode_response,
}
use go_phat.Queuerpc.{
  returns, snapshot_request, snapshot_result, as_snapshot, load_snapshot_func, load_result,
}

requested : ℕ → ServerState → ServerState
requested index s = record s { copy_on_write = true; encoding = s.encoding ++ index ∷ [] }

request :
    (codec : Codec) (index : ℕ) (s : ServerState)
    → snapshot_request codec index s ≡ starts_encoding (requested index s)
unfolding snapshot_request turn copy_if_needed writes dispatch handle_snapshot requested
request codec index s = elim (Bool-cases s.copy_on_write) [
  | inl cow ↦ simp (cow, snapshot_request) refl
  | inr own ↦ simp (own, snapshot_request) refl
]

load :
    (codec : Codec) (bs : List ℕ) (mq : MessageQueue String) (t : ServerState)
    → codec.decode bs t.mq ≡ (mq, "")
    → load_snapshot_func codec bs t ≡ returns (record t { mq = mq })
unfolding load_snapshot_func load_result turn copy_if_needed writes dispatch handle_load
load codec bs mq t decodes = elim (Bool-cases t.copy_on_write) [
  | inl cow ↦ simp (cow, decodes, load_snapshot_func) refl
  | inr own ↦ simp (own, decodes, load_snapshot_func) refl
]

encoded :
    (codec : Codec) (encode_error : String) (index : ℕ) (bs : List ℕ) (s : ServerState)
    (others : List ℕ)
    → others ≡ []
    → codec.encode s.mq ≡ some bs
    → encode_func codec encode_error (requested index (record s { encoding = others }))
      ≡ some (
        reply_with (snapshot (record { data_bytes = bs; snapshot_index = index })),
        record s { copy_on_write = false; encoding = [] },
      )
unfolding encode_func encode_response requested
encoded codec encode_error index bs s [] idle encodes = rw (encodes, encode_func) refl
encoded codec encode_error index bs s (o ∷ os) idle encodes = cc

-- `SnapshotFunc` on one replica, then the goroutine that encodes, then `LoadSnapshotFunc` on another
-- one: if gob encodes the queue and decodes its bytes again, then the first returns the bytes and
-- the index it was given, and the other's queue is the first one's afterwards. No other snapshot is
-- on its way, and no command comes in between.
pub load_snapshot_func-snapshot :
    (codec : Codec) (encode_error : String) (index : ℕ) (bs : List ℕ) (s t : ServerState)
    → s.encoding ≡ []
    → codec.encode s.mq ≡ some bs
    → codec.decode bs t.mq ≡ (s.mq, "")
    → (s' : ServerState) × (after : ServerState) × (result : QResponse) × (snapshot_request codec
          index s
        ≡ starts_encoding s')
      × (encode_func codec encode_error s' ≡ some (result, after))
      × (after.mq ≡ s.mq)
      × (snapshot_result result ≡ returns (record { data_bytes = bs; snapshot_index = index }))
      × (load_snapshot_func codec bs t ≡ returns (record t { mq = s.mq }))
unfolding encode_func encode_response snapshot_result as_snapshot requested
load_snapshot_func-snapshot codec encode_error index bs s t idle encodes decodes = (
  requested index s,
  record s { copy_on_write = false; encoding = [] },
  reply_with (snapshot (record { data_bytes = bs; snapshot_index = index })),
  request codec index s,
  encoded codec encode_error index bs s s.encoding idle encodes,
  refl,
  refl,
  load codec bs s.mq t decodes,
)
