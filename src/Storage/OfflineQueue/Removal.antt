-- ===== src/Storage/OfflineQueue/Removal.antt =====
-- What `acknowledge` and `findOldest` do to the spool.
use multisensory_device.Base.{
  ℕ, ◌+◌, ◌≤◌, ◌<◌, ◌≡◌, ◌⊎◌, inl, inr, refl, true, false, none, some, List, [], ◌∷◌, arith,
  if◌then◌else◌, All, Bool-cases, Option-cases, add32,
}
use multisensory_device.Storage.SdCard.{SdCard, DirEntry}
use multisensory_device.Storage.OfflineRecord.{
  QueueRecordHeader, record_path, parse_record_id, flag_last_publish_replayed, queue_directory,
}
use multisensory_device.Storage.OfflineRecord.Path.{parse_record_id_pos}
use multisensory_device.Storage.OfflineQueue.{
  OfflineQueue, find_oldest, remove_oldest, read_header, lesser, older, oldest_of, has_flag,
}
use multisensory_device.Storage.OfflineQueue.Delivery.{acknowledge}

-- The ids of the records that a directory lists.
abbrev pub record_ids : List DirEntry → List ℕ
record_ids [] = []
record_ids (e ∷ es) =
    if e.is_directory
    then record_ids es
    else elim (parse_record_id e.name) [ none ↦ record_ids es | some id ↦ id ∷ record_ids es ]

abbrev pub In : ℕ → List ℕ → Type 0
In x [] = ⊥
In x (y ∷ ys) = (x ≡ y) ⊎ In x ys

hit_case :
    (best id r : ℕ) (ids : List ℕ)
    → 0 < id
    → (r ≡ lesser best id) ⊎ In r ids
    → (0 < lesser best id → (0 < r) × (r ≤ lesser best id))
    → ((r ≡ best) ⊎ In r (id ∷ ids)) × ((0 < r) × (r ≤ id)) × (0 < best → (0 < r) × (r ≤ best))
unfolding lesser
hit_case best id r ids pos from below = (ground arith, ground arith, λ h. ground arith)

oldest_of_lem :
    (best : ℕ) (es : List DirEntry)
    → let r = oldest_of best es in
      ((r ≡ best) ⊎ In r (record_ids es))
      × All (λ id. (0 < r) × (r ≤ id)) (record_ids es)
      × (0 < best → (0 < r) × (r ≤ best))
unfolding oldest_of
oldest_of_lem best [] = (inl refl, tt, λ h. omega arith)
oldest_of_lem best (e ∷ es) = elim (Bool-cases e.is_directory) [
  | inl dir ↦ rw (dir, older) (oldest_of_lem best es)
  | inr plain ↦ elim (Option-cases (parse_record_id e.name)) [
    | inl miss ↦ rw (plain, miss) (oldest_of_lem best es)
    | inr (id, hit) ↦
        let pos = parse_record_id_pos e.name id hit in
        let next = lesser best id in
        let (from, least, below) = oldest_of_lem next es in
        let (from', here, below') =
          hit_case best id (oldest_of next es) (record_ids es) pos from below in
        rw (plain, hit) (from', (here, least), below')
  ]
]

All-weaken : (r : ℕ) (ids : List ℕ) → All (λ id. (0 < r) × (r ≤ id)) ids → All (λ id. r ≤ id) ids
All-weaken r [] h = tt
All-weaken r (id ∷ ids) (h, hs) = (h.1, All-weaken r ids hs)

-- A least id is found in every list of ids but the empty one.
abbrev FoundLeast : List ℕ → ℕ → Type 0
FoundLeast ids r = ((ids ≡ []) × (r ≡ 0)) ⊎ ((0 < r) × In r ids × All (λ id. r ≤ id) ids)

oldest_of_least :
    (ids : List ℕ) (r : ℕ)
    → (r ≡ 0) ⊎ In r ids
    → All (λ id. (0 < r) × (r ≤ id)) ids
    → FoundLeast ids r
oldest_of_least [] r (inl e) h = inl (refl, e)
oldest_of_least [] r (inr m) h = elim m [ ]
oldest_of_least (id ∷ ids) r (inl e) h = absurd (omega arith)
oldest_of_least (id ∷ ids) r (inr m) h = inr (h.0.0, m, All-weaken r (id ∷ ids) h)

module _ (sd : SdCard) where
  -- After a removal the next record to send is the one with the smallest id among the record files
  -- that the directory lists, and the search fails only where it lists none.
  pub find_oldest_least :
      (q : OfflineQueue) (fs : sd.Fs) (entries : List DirEntry)
      → sd.open_dir fs queue_directory ≡ some entries
      → let (found, q') = find_oldest sd q fs in
        let id = q'.oldest_record_id in
        ((record_ids entries ≡ []) × (found ≡ false) × (id ≡ 0))
        ⊎ ((found ≡ true)
            × In id (record_ids entries)
            × All (λ other. id ≤ other) (record_ids entries))
  unfolding find_oldest
  find_oldest_least q fs entries e =
      let (from, least, _) = oldest_of_lem 0 entries in
      rw (e, find_oldest)
        (elim (oldest_of_least (record_ids entries) (oldest_of 0 entries) from least) [
          | inl (nothing, zeroed) ↦ inl (nothing, ground arith, zeroed)
          | inr (pos, member, all) ↦ inr (ground arith, member, all)
        ])

  -- A PUBACK for a record is honoured only on a ready spool and for the oldest record. Then exactly that
  -- record's file is removed, one record is taken off the count and none counts as dropped, and the
  -- replay counter goes up exactly if the last publication was marked as a replay.
  pub acknowledge-true :
      (id : ℕ) (q : OfflineQueue) (fs : sd.Fs)
      → (acknowledge sd id q fs).0 ≡ true
      → let q' = (acknowledge sd id q fs).1 in
        (h : QueueRecordHeader) × (size : ℕ) × (q.ready ≡ true)
        × (id ≡ q.oldest_record_id)
        × (read_header sd fs id ≡ some (h, size))
        × (sd.remove fs (record_path id) ≡ (true, (acknowledge sd id q fs).2))
        × (q'.queued + 1 ≡ q.queued)
        × (q'.dropped ≡ q.dropped)
        × (q'.replayed
            ≡ (if has_flag h flag_last_publish_replayed then add32 q.replayed 1 else q.replayed))
  unfolding acknowledge remove_oldest find_oldest
  acknowledge-true id q fs h = elim (Option-cases (read_header sd fs id)) [
    | inl e ↦ absurd (ground arith)
    | inr ((head, size), e) ↦ (
      head,
      size,
      ground arith,
      ground arith,
      e,
      ground arith,
      ground arith,
      ground arith,
      ground arith,
    )
  ]
