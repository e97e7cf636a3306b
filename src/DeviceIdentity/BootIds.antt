-- ===== src/DeviceIdentity/BootIds.antt =====
-- Boot ids and sequence numbers do not repeat.
use multisensory_device.Base.{ℕ, zero, suc, ◌<◌, ◌≡◌, ◌≢◌, refl, true, arith, u32_mod}
use multisensory_device.DeviceIdentity.{
  Preferences, KeepsNumbers, DeviceIdentity, begin, next_sequence, successor, namespace,
  boot_id_key,
}

module _ (p : Preferences) (keeps : KeepsNumbers p) where
  -- Two starts that succeed, one after the other on the same storage, get boot ids that are not 0 and
  -- differ: the second is the first one's successor. Each starts its sequence at 0.
  pub begin_twice :
      (d e : DeviceIdentity) (nvs : p.Nvs)
      → (begin p d nvs).0 ≡ true
      → (begin p e (begin p d nvs).2).0 ≡ true
      → let (_, first, nvs') = begin p d nvs in
        let (_, second, _) = begin p e nvs' in
        (first.boot_id ≢ 0)
        × (second.boot_id ≢ 0)
        × (second.boot_id ≢ first.boot_id)
        × (second.boot_id ≡ successor first.boot_id)
        × (second.sequence ≡ 0)
        × (second.valid ≡ true)
  unfolding begin
  begin_twice d e nvs once again =
      let next = successor (p.get_uint nvs namespace boot_id_key 0) in
      let nvs1 = (p.put_uint nvs namespace boot_id_key next).1 in
      let back = keeps.kept nvs nvs1 namespace boot_id_key next 0 in
      (
        ground (arith, back),
        ground (arith, back),
        ground (arith, back),
        ground (arith, back),
        ground arith,
        ground arith,
      )

-- The identity after `n` sequence numbers were taken.
pub taken : ℕ → DeviceIdentity → DeviceIdentity
taken zero d = d
taken (suc n) d = (next_sequence (taken n d)).1

taken_lem :
    (n : ℕ) (d : DeviceIdentity)
    → d.valid ≡ true
    → d.sequence ≡ 0
    → n < u32_mod
    → ((taken n d).valid ≡ true) × ((taken n d).boot_id ≡ d.boot_id) × ((taken n d).sequence ≡ n)
unfolding taken next_sequence
taken_lem zero d v s h = (v, refl, s)
taken_lem (suc n) d v s h = ground (arith, taken_lem n d v s)

-- Until 2 ^ 32 - 1 numbers were taken in one boot, the next number is the count of numbers taken and one,
-- so no sequence number is 0 and none is given twice.
pub next_sequence-taken :
    (n : ℕ) (d : DeviceIdentity)
    → d.valid ≡ true
    → d.sequence ≡ 0
    → suc n < u32_mod
    → (next_sequence (taken n d)).0 ≡ suc n
unfolding next_sequence
next_sequence-taken n d v s h = ground (arith, taken_lem n d v s)
