-- ===== src/OfflineQueuePolicy/Payload.antt =====
-- What `markPayloadReplayed` does to a payload.
use multisensory_device.Base.{
  ℕ, suc, ◌+◌, ◌≡◌, sym, ◌∙◌, ap, ◌≢◌, some, List, ◌++◌, append_assoc, inl, inr, arith, length,
  length-append, drop, drop-append, take-append, All, Option-cases,
}
use multisensory_device.Base.Text.{
  c_string, strstr, strstr_sound, strstr_complete, c_string-append, c_string_prefix, drop-drop,
}
use multisensory_device.OfflineQueuePolicy.{
  false_field, true_field, replace_at, mark_payload_replayed,
}

replace_at_seam :
    (pre post : List ℕ) (p : ℕ)
    → length pre ≡ p
    → replace_at (pre ++ (false_field ++ post)) p ≡ pre ++ (true_field ++ post)
unfolding replace_at
replace_at_seam pre post p e =
    let text = pre ++ (false_field ++ post) in
    let behind : drop (p + 16) text ≡ post =
      sym (drop-drop p 16 text) ∙ ap (drop 16) (drop-append p pre (false_field ++ post) e) in
    cc (take-append p pre (false_field ++ post) e, behind)

abbrev pub Replaces : List ℕ → List ℕ → Type 0
Replaces payload out =
    (pre : List ℕ) × (post : List ℕ) × (payload ≡ pre ++ (false_field ++ post))
    × (out ≡ pre ++ (true_field ++ post))
    × (length out + 1 ≡ length payload)

-- If the call succeeds, then the payload is the old one with one field `"replayed":false` turned into
-- `"replayed":true`, everything else in place, and is one byte shorter.
pub mark_payload_replayed_sound :
    (payload out : List ℕ) → mark_payload_replayed payload ≡ some out → Replaces payload out
unfolding mark_payload_replayed
mark_payload_replayed_sound payload out h =
    elim (Option-cases (strstr false_field (c_string payload))) [
      | inl e ↦ absurd (ground arith)
      | inr (p, e) ↦
          let (pre, tail, split, place) = strstr_sound false_field (c_string payload) p e in
          let rest = drop (length (c_string payload)) payload in
          let post = tail ++ rest in
          let whole : payload ≡ pre ++ (false_field ++ post) =
            c_string_prefix payload
            ∙ ap (λ t. t ++ rest) split
            ∙ append_assoc pre (false_field ++ tail) rest in
          let result : out ≡ pre ++ (true_field ++ post) =
            ground (arith, ap (λ t. replace_at t p) whole ∙ replace_at_seam pre post p place) in
          (
            pre,
            post,
            whole,
            result,
            omega (
              arith,
              ap length whole,
              ap length result,
              length-append pre (false_field ++ post),
              length-append pre (true_field ++ post),
            ),
          )
    ]

-- A payload with the field in it, and no zero byte before the field, is always marked.
pub mark_payload_replayed_complete :
    (pre post : List ℕ)
    → All (λ c. c ≢ 0) pre
    → (out : List ℕ) × (mark_payload_replayed (pre ++ (false_field ++ post)) ≡ some out)
unfolding mark_payload_replayed
mark_payload_replayed_complete pre post h =
    let text = pre ++ (false_field ++ post) in
    let seen : c_string text ≡ pre ++ (false_field ++ c_string post) =
      c_string-append pre (false_field ++ post) h
      ∙ ap (◌++◌ pre) (c_string-append false_field post (omega arith)) in
    let (p, found, _) = strstr_complete false_field pre (c_string post) in
    let full : length text ≡ length pre + suc (length post + 15) =
      omega (arith, length-append pre (false_field ++ post)) in
    (replace_at text p, ground (arith, seen, ap (strstr false_field) seen ∙ found, full))
