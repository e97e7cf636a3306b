-- ===== src/MqttTopics/Distinct.antt =====
-- A topic says which vehicle, which device and which branch it belongs to.
use mathlib.Core.List.{append_cancel_left}
use multisensory_device.Base.{ℕ, ◌≡◌, ◌≢◌, refl, true, List, [], ◌∷◌, ◌++◌, arith, All}
use multisensory_device.Base.Text.{codes}
use multisensory_device.MqttTopics.{is_valid_id, all_id_characters, topic}

abbrev NoSlash : List ℕ → Type 0
NoSlash = All λ c. c ≢ b'/'

-- Two texts that agree up to a slash behind slash-free parts agree in those parts.
split_slash :
    (a b x y : List ℕ)
    → NoSlash a
    → NoSlash b
    → a ++ (b'/' ∷ x) ≡ b ++ (b'/' ∷ y)
    → (a ≡ b) × (x ≡ y)
split_slash [] [] x y ha hb e = (refl, ground arith)
split_slash [] (c ∷ b) x y ha hb e = absurd (hb.0 (ground arith))
split_slash (c ∷ a) [] x y ha hb e = absurd (ha.0 (ground arith))
split_slash (c ∷ a) (d ∷ b) x y ha hb e =
    let (rest, same) = split_slash a b x y ha.1 hb.1 (ground arith) in (ground (arith, rest), same)

all_id_characters-NoSlash : (s : List ℕ) → all_id_characters s ≡ true → NoSlash s
unfolding all_id_characters
all_id_characters-NoSlash [] h = tt
all_id_characters-NoSlash (c ∷ s) h =
    (λ e. ground arith, all_id_characters-NoSlash s (ground arith))

is_valid_id-NoSlash : (s : List ℕ) → is_valid_id s ≡ true → NoSlash s
unfolding is_valid_id
is_valid_id-NoSlash s h = all_id_characters-NoSlash s (ground arith)

-- Two topics of valid ids are equal only if the vehicle, the device and the branch are the same, so no
-- device can publish on, or be commanded through, another one's topics.
pub topic_injective :
    (v d s v' d' s' : List ℕ)
    → is_valid_id v ≡ true
    → is_valid_id d ≡ true
    → is_valid_id v' ≡ true
    → is_valid_id d' ≡ true
    → topic v d s ≡ topic v' d' s'
    → (v ≡ v') × (d ≡ d') × (s ≡ s')
unfolding topic
topic_injective v d s v' d' s' hv hd hv' hd' e =
    let tail = append_cancel_left (codes "vehiclesense/v1/vehicles/") _ _ e in
    let (same_v, after) =
      split_slash v v' _ _ (is_valid_id-NoSlash v hv) (is_valid_id-NoSlash v' hv') tail in
    let (same_d, same_s) =
      split_slash d d' s s' (is_valid_id-NoSlash d hd) (is_valid_id-NoSlash d' hd')
        (append_cancel_left (codes "devices/") _ _ after) in
    (same_v, same_d, same_s)
