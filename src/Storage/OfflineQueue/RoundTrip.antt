-- ===== src/Storage/OfflineQueue/RoundTrip.antt =====
-- What `enqueue` stores is what `peek` sends.
use mathlib.Core.List.{foldl}
use multisensory_device.Base.{
  ℕ, zero, suc, ◌+◌, ◌<◌, ◌≡◌, ◌∙◌, ap, refl, sym, Bool, true, false, Option, none, some, List, [],
  ◌∷◌, ◌++◌, arith, length, take_all, take-append, drop-append, Option-cases, u32_mod, inl, inr,
}
use multisensory_device.Config.{telemetry_payload_buffer_size}
use multisensory_device.OfflineQueuePolicy.{mark_payload_replayed, should_mark_replayed}
use multisensory_device.Storage.SdCard.{SdCard, OpenFile, IsReliable}
use multisensory_device.Storage.OfflineRecord.{
  QueueRecordHeader, header_size, record_path, encode, checksum_of, mix, temporary_path,
}
use multisensory_device.Storage.OfflineRecord.Layout.{IsEncodable, decode-encode, length-encode}
use multisensory_device.Storage.OfflineQueue.{OfflineQueue, Peeked, overflows_output}
use multisensory_device.Storage.OfflineQueue.Intake.{
  fill_record, store_record, enqueue, ensure_capacity, make_room, new_header, one_queued, refuses,
}
use multisensory_device.Storage.OfflineQueue.Delivery.{
  peek, peek_file, read_payload, outgoing, rejects_header,
}

-- The file of a record.
abbrev file_of : QueueRecordHeader → List ℕ → OpenFile
file_of h payload = record { size = header_size + length payload; bytes = encode h ++ payload }

foldl-mix-lt : (bytes : List ℕ) (sum : ℕ) → sum < u32_mod → foldl mix sum bytes < u32_mod
foldl-mix-lt [] sum h = h
foldl-mix-lt (b ∷ bs) sum h = foldl-mix-lt bs (mix sum b) (omega arith)

checksum_of-lt : (bytes : List ℕ) → checksum_of bytes < u32_mod
unfolding checksum_of
checksum_of-lt bytes = foldl-mix-lt bytes 2166136261 (omega arith)

module _ (sd : SdCard) (reliable : IsReliable sd) where
  fill_record_lem :
      (header payload path : List ℕ) (bytes now : ℕ) (q : OfflineQueue) (fs : sd.Fs)
      → sd.open_read fs temporary_path ≡ some (record { size = 0; bytes = [] })
      → length header ≡ header_size
      → (fill_record sd header payload path bytes now q fs).0 ≡ true
      → (sd.open_read (fill_record sd header payload path bytes now q fs).2 path
          ≡ some (record { size = header_size + length payload; bytes = header ++ payload }))
        × ((fill_record sd header payload path bytes now q fs).1 ≡ one_queued bytes q)
  unfolding fill_record
  fill_record_lem header payload path bytes now q fs fresh whole done =
      let (n1, fs1) = sd.write fs temporary_path header in
      let (n2, fs2) = sd.write fs1 temporary_path payload in
      let fs3 = (sd.rename fs2 temporary_path path).1 in
      let first = reliable.written fs fs1 temporary_path header n1 _ fresh refl in
      let second = reliable.written fs1 fs2 temporary_path payload n2 _ first refl in
      ground (
        arith,
        reliable.renamed fs2 fs3 temporary_path path,
        second,
        take_all n1 header,
        take_all n2 payload,
      )

  -- A record that is stored stands under its path, whole.
  store_record_lem :
      (h : QueueRecordHeader) (payload path : List ℕ) (bytes now : ℕ) (q : OfflineQueue)
      (fs : sd.Fs)
      → (store_record sd (encode h) payload path bytes now q fs).0 ≡ true
      → (sd.open_read (store_record sd (encode h) payload path bytes now q fs).2 path
          ≡ some (file_of h payload))
        × ((store_record sd (encode h) payload path bytes now q fs).1 ≡ one_queued bytes q)
  unfolding store_record
  store_record_lem h payload path bytes now q fs done =
      let fs1 = (sd.remove fs temporary_path).1 in
      elim (Option-cases (sd.open_write fs1 temporary_path)) [
        | inl e ↦ absurd (ground arith)
        | inr (fs2, e) ↦
            let done' = rw (e, store_record) at done in
            rw (e, store_record)
              (fill_record_lem (encode h) payload path bytes now q fs2
                (reliable.opened_empty fs1 fs2 temporary_path e) (length-encode h) done')
      ]

-- The oldest record's file, as `enqueue` wrote it, passes the checks of `peek`.
peek_file_lem :
    (q : OfflineQueue) (h : QueueRecordHeader) (payload : List ℕ)
    → IsEncodable h
    → rejects_header q telemetry_payload_buffer_size h ≡ false
    → h.payload_length ≡ length payload
    → h.checksum ≡ checksum_of payload
    → peek_file telemetry_payload_buffer_size q (some (file_of h payload)) ≡ outgoing q h payload
unfolding peek_file read_payload
peek_file_lem q h payload v passes size sum = ground (
  arith,
  decode-encode h payload v,
  take-append 40 (encode h) payload (length-encode h),
  drop-append 40 (encode h) payload (length-encode h),
  take_all h.payload_length payload,
  length-encode h,
)

-- What the broker gets of a record: the payload itself, or its replayed form if it was deferred.
abbrev pub sent_as : Bool → ℕ → List ℕ → Option Peeked
sent_as false id payload = some (record { payload = payload; record_id = id; replayed = false })
sent_as true id payload = elim (mark_payload_replayed payload) [
  | none ↦ none
  | some marked ↦ some (record { payload = marked; record_id = id; replayed = true })
]

outgoing_new :
    (q q' : OfflineQueue) (payload : List ℕ) (now now_epoch : ℕ) (deferred : Bool)
    → q'.current_boot_id ≡ q.current_boot_id
    → outgoing q' (new_header q payload now now_epoch deferred) payload
      ≡ sent_as deferred q.next_record_id payload
unfolding outgoing should_mark_replayed
outgoing_new q q' payload now now_epoch false e = ground arith
outgoing_new q q' payload now now_epoch true e = ground arith

new_header-IsEncodable :
    (q : OfflineQueue) (payload : List ℕ) (now now_epoch : ℕ) (deferred : Bool)
    → refuses q payload ≡ false
    → q.current_boot_id < u32_mod
    → now < u32_mod
    → now_epoch < 18446744073709551616
    → IsEncodable (new_header q payload now now_epoch deferred)
new_header-IsEncodable q payload now now_epoch deferred fine boot h k =
    ground (arith, checksum_of-lt payload)

module _ (sd : SdCard) where
  make_room_empty :
      (n bytes : ℕ) (q : OfflineQueue) (fs : sd.Fs)
      → n ≡ 0
      → make_room sd n bytes q fs ≡ make_room sd 0 bytes q fs
  make_room_empty zero bytes q fs e = refl
  make_room_empty (suc n) bytes q fs e = absurd (omega arith)

  enqueue_empty :
      (payload : List ℕ) (now now_epoch : ℕ) (deferred : Bool) (q : OfflineQueue) (fs : sd.Fs)
      → q.queued ≡ 0
      → (enqueue sd payload now now_epoch deferred q fs).0 ≡ true
      → (refuses q payload ≡ false)
        × (enqueue sd payload now now_epoch deferred q fs
            ≡ store_record sd
                (encode (new_header q payload now now_epoch deferred))
                payload
                (record_path q.next_record_id)
                (header_size + length payload)
                now
                q
                fs)
  unfolding enqueue ensure_capacity make_room
  enqueue_empty payload now now_epoch deferred q fs e done =
      ground (arith, make_room_empty q.queued (header_size + length payload) q fs e)

module _ (sd : SdCard) (reliable : IsReliable sd) where
  -- On a card that keeps what it says it has written, a payload that an empty spool takes is the very
  -- payload that `peek` then hands to the publisher, under the record's id and unmarked; if the
  -- payload was deferred, it is handed over with its field `replayed` turned to true.
  pub peek-enqueue :
      (payload : List ℕ) (now now_epoch : ℕ) (deferred : Bool) (q : OfflineQueue) (fs : sd.Fs)
      → q.queued ≡ 0
      → q.current_boot_id < u32_mod
      → now < u32_mod
      → now_epoch < 18446744073709551616
      → (enqueue sd payload now now_epoch deferred q fs).0 ≡ true
      → let (_, q', fs') = enqueue sd payload now now_epoch deferred q fs in
        (peek sd telemetry_payload_buffer_size q' fs').0 ≡ sent_as deferred q.next_record_id payload
  unfolding peek rejects_header overflows_output
  peek-enqueue payload now now_epoch deferred q fs empty boot h k done =
      let head = new_header q payload now now_epoch deferred in
      let path = record_path q.next_record_id in
      let bytes = header_size + length payload in
      let (fine, same) = enqueue_empty sd payload now now_epoch deferred q fs empty done in
      let (found, state) =
        store_record_lem sd reliable head payload path bytes now q fs
          (ap (λ r. r.0) (sym same) ∙ done) in
      let q' = one_queued bytes q in
      let sent =
        peek_file_lem q' head payload
          (new_header-IsEncodable q payload now now_epoch deferred fine boot h k) (ground arith)
          refl refl in
      ground
        (arith, outgoing_new q q' payload now now_epoch deferred, found, state, sent, fine, same)
