-- ===== src/SecureMqtt/Commands.antt =====
-- The assembly of a command from the parts that the library delivers.
use multisensory_device.Base.{
  ℕ, ◌+◌, ◌≤◌, ◌<◌, ◌≡◌, refl, true, false, Option, none, some, List, [], ◌∷◌, ◌++◌, arith, length,
  take, drop, All, same_text, same_text_iff, length-append, length-take, length-drop, take-append,
  append_assoc, append-nil, subst, sym,
}
use multisensory_device.Base.Int.{pos, same_int}
use multisensory_device.SecureMqtt.{Inbox}
use multisensory_device.SecureMqtt.Events.{
  Chunk, handle_incoming_data, add_chunk, open_message, store_chunk, write_at, take_command,
}

-- The events of one message: its parts in their order, the topic with the first alone.
unfoldable pub parts : ℕ → ℕ → Option (List ℕ) → List (List ℕ) → List Chunk
parts total offset topic [] = []
parts total offset topic (text ∷ rest) =
    record {
      topic = topic;
      part = some text;
      current_data_offset = pos offset;
      total_data_len = pos total;
    }
    ∷ parts total (offset + length text) none rest

unfoldable pub receive : List ℕ → List Chunk → Inbox → Inbox
receive commands [] b = b
receive commands (e ∷ rest) b = receive commands rest (handle_incoming_data commands e b)

abbrev pub joined : List (List ℕ) → List ℕ
joined [] = []
joined (text ∷ rest) = text ++ joined rest

-- The inbox in the middle of a message, whose beginning is `text`.
abbrev Holds : List ℕ → Inbox → Type 0
Holds text b =
    (b.receiving ≡ true)
    × (b.ready ≡ false)
    × (length b.buffer ≡ 1024)
    × (take (length text) b.buffer ≡ text)

abbrev Complete : List ℕ → Inbox → Type 0
Complete text b =
    (b.receiving ≡ false)
    × (b.ready ≡ true)
    × (b.command_length ≡ length text)
    × (length b.buffer ≡ 1024)
    × (take (length text) b.buffer ≡ text)

length-write_at :
    (offset : ℕ) (text buffer : List ℕ)
    → offset + length text ≤ length buffer
    → length (write_at offset text buffer) ≡ length buffer
unfolding write_at
length-write_at offset text buffer h = omega (
  arith,
  length-append (take offset buffer) (text ++ drop (offset + length text) buffer),
  length-append text (drop (offset + length text) buffer),
  length-take offset buffer,
  length-drop (offset + length text) buffer,
)

-- Bytes behind the text that is there already.
take-write_at :
    (pre text buffer : List ℕ)
    → take (length pre) buffer ≡ pre
    → take (length (pre ++ text)) (write_at (length pre) text buffer) ≡ pre ++ text
unfolding write_at
take-write_at pre text buffer h =
    let rest = drop (length pre + length text) buffer in
    let seam : take (length (pre ++ text)) ((pre ++ text) ++ rest) ≡ pre ++ text =
      take-append (length (pre ++ text)) (pre ++ text) rest refl in
    rw (h, sym (append_assoc pre text rest), seam)

keep-write_at :
    (pre text buffer : List ℕ)
    → take (length pre) buffer ≡ pre
    → take (length pre) (write_at (length pre) text buffer) ≡ pre
unfolding write_at
keep-write_at pre text buffer h =
    let rest = drop (length pre + length text) buffer in
    let seam : take (length pre) (pre ++ (text ++ rest)) ≡ pre =
      take-append (length pre) pre (text ++ rest) refl in
    rw (h, seam)

-- The two ways on for a part of the message that is being received.
added_more :
    (total offset : ℕ) (text : List ℕ) (b : Inbox)
    → total < 1024
    → 0 < length text
    → offset + length text < total
    → b.receiving ≡ true
    → add_chunk (some text) (pos offset) (pos total) b
      ≡ record b { command_length = offset + length text; buffer = write_at offset text b.buffer }
unfolding add_chunk store_chunk same_int
added_more total offset text b h k l r = ground (arith, r)

added_last :
    (total offset : ℕ) (text : List ℕ) (b : Inbox)
    → total < 1024
    → 0 < length text
    → offset + length text ≡ total
    → b.receiving ≡ true
    → add_chunk (some text) (pos offset) (pos total) b ≡ record {
      receiving = false;
      ready = true;
      command_length = offset + length text;
      buffer = write_at (offset + length text) (0 ∷ []) (write_at offset text b.buffer);
    }
unfolding add_chunk store_chunk same_int
added_last total offset text b h k l r = ground (arith, r)

-- One part after the first: the message goes on, or is complete.
add_part :
    (total : ℕ) (pre text : List ℕ) (b : Inbox)
    → total < 1024
    → 0 < length text
    → length pre + length text ≤ total
    → Holds pre b
    → let b' = add_chunk (some text) (pos (length pre)) (pos total) b in
      (length pre + length text < total → Holds (pre ++ text) b')
      × (length pre + length text ≡ total → Complete (pre ++ text) b')
add_part total pre text b h k l (r, d, n, t) =
    let written = write_at (length pre) text b.buffer in
    let size : length written ≡ 1024 =
      omega (arith, length-write_at (length pre) text b.buffer, n) in
    let kept : take (length (pre ++ text)) written ≡ pre ++ text =
      take-write_at pre text b.buffer t in
    let whole : length (pre ++ text) ≡ length pre + length text = length-append pre text in
    let closed : length (write_at (length (pre ++ text)) (0 ∷ []) written) ≡ 1024 =
      omega (arith, length-write_at (length (pre ++ text)) (0 ∷ []) written, size, whole) in
    let last = keep-write_at (pre ++ text) (0 ∷ []) written kept in
    (
      λ p.
          (let next = added_more total (length pre) text b h k p r in
            (rw (next, r), rw (next, d), rw (next, size), rw (next, kept))),
      λ p.
          (let next = added_last total (length pre) text b h k p r in
            (
              rw next,
              rw next,
              rw (next, whole),
              rw (next, sym whole, closed),
              rw (next, sym whole, last),
            )),
    )

-- A part after the first opens no message.
handled_part :
    (commands : List ℕ) (total offset : ℕ) (text : List ℕ) (b : Inbox)
    → 0 < offset
    → let e : Chunk = record {
      topic = none;
      part = some text;
      current_data_offset = pos offset;
      total_data_len = pos total;
    } in
      handle_incoming_data commands e b ≡ add_chunk (some text) (pos offset) (pos total) b
unfolding handle_incoming_data open_message same_int
handled_part commands total offset text b h = ground arith

-- A part and all that follow it.
rest_received :
    (commands whole : List ℕ) (offset : ℕ) (pre text : List ℕ) (rest : List (List ℕ)) (b : Inbox)
    → length whole < 1024
    → whole ≡ pre ++ (text ++ joined rest)
    → offset ≡ length pre
    → 0 < length text
    → All (λ text. 0 < length text) rest
    → Holds pre b
    → Complete whole (
        receive commands
          (parts (length whole) (offset + length text) none rest)
          (add_chunk (some text) (pos offset) (pos (length whole)) b))
unfolding receive parts
rest_received commands whole offset pre text [] b h e o z n r =
    let all : whole ≡ pre ++ text = rw (e, append-nil text) in
    let size : length pre + length text ≡ length whole = rw (all, sym (length-append pre text)) in
    let done = (add_part (length whole) pre text b h z (omega (arith, size)) r).1 size in
    rw o (
      subst (λ all. Complete all (add_chunk (some text) (pos (length pre)) (pos (length whole)) b))
        (sym all) done)
rest_received commands whole offset pre text (next ∷ rest) b h e o z n r =
    let b' = add_chunk (some text) (pos offset) (pos (length whole)) b in
    let size : length whole ≡ length pre + (length text + (length next + length (joined rest))) =
      rw (
        e,
        length-append pre (text ++ (next ++ joined rest)),
        length-append text (next ++ joined rest),
        length-append next (joined rest),
      ) in
    let short : length pre + length text < length whole = omega (arith, size, n.0) in
    let more : Holds (pre ++ text) b' =
      rw o ((add_part (length whole) pre text b h z (omega (arith, size)) r).0 short) in
    let step = handled_part commands (length whole) (offset + length text) next b' (omega arith) in
    let ih =
      rest_received commands whole (offset + length text) (pre ++ text) next rest b' h
        (rw (e, append_assoc pre text (next ++ joined rest))) (rw (o, length-append pre text)) n.0
        n.1 more in
    subst
      (λ b.
        Complete whole (
          receive commands (parts (length whole) (offset + length text + length next) none rest) b))
      (sym step) ih

-- The first part opens the message, if the topic is right and the buffer is free.
first_part :
    (commands whole text : List ℕ) (b : Inbox)
    → 0 < length whole
    → length whole < 1024
    → b.ready ≡ false
    → let e : Chunk = record {
      topic = some commands;
      part = some text;
      current_data_offset = pos 0;
      total_data_len = pos (length whole);
    } in
      handle_incoming_data commands e b
      ≡ add_chunk
          (some text)
          (pos 0)
          (pos (length whole))
          (record b { receiving = true; command_length = 0 })
unfolding handle_incoming_data open_message same_int
first_part commands whole text b z h d =
    let same : same_text commands commands ≡ true = (same_text_iff commands commands).1 refl in
    ground (arith, same, d)

take_Complete :
    (text : List ℕ) (size : ℕ) (b : Inbox)
    → length text < size
    → Complete text b
    → ((take_command size b).0 ≡ some text) × ((take_command size (take_command size b).1).0 ≡ none)
unfolding take_command
take_Complete text size b h (r, d, l, n, t) = ground (arith, d, l, t)

-- A command of fewer than 1,024 bytes, which comes in nonempty parts in their order on the commands'
-- topic while none is waiting, is what the application then takes, once, if its buffer has room for it and
-- for a closing zero.
pub command_received :
    (commands text : List ℕ) (rest : List (List ℕ)) (size : ℕ) (b : Inbox)
    → length b.buffer ≡ 1024
    → b.ready ≡ false
    → All (λ part. 0 < length part) (text ∷ rest)
    → length (joined (text ∷ rest)) < 1024
    → length (joined (text ∷ rest)) < size
    → let total = length (joined (text ∷ rest)) in
      let b1 = receive commands (parts total 0 (some commands) (text ∷ rest)) b in
      let (command, b2) = take_command size b1 in
      (command ≡ some (joined (text ∷ rest))) × ((take_command size b2).0 ≡ none)
unfolding receive parts
command_received commands text rest size b n d z h k =
    let whole = joined (text ∷ rest) in
    let opened : Inbox = record b { receiving = true; command_length = 0 } in
    let some_bytes : 0 < length whole = omega (arith, length-append text (joined rest), z.0) in
    let first = first_part commands whole text b some_bytes h d in
    let complete : Complete whole
        (receive commands (parts (length whole) 0 (some commands) (text ∷ rest)) b) =
      subst
        (λ b.
          Complete whole (receive commands (parts (length whole) (0 + length text) none rest) b))
        (sym first)
        (rest_received commands whole 0 [] text rest opened h refl refl z.0 z.1
          (refl, d, n, refl)) in
    take_Complete whole size
      (receive commands (parts (length whole) 0 (some commands) (text ∷ rest)) b) k complete
