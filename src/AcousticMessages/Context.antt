-- ===== src/AcousticMessages/Context.antt =====
-- The sample id of an aggregate.
use multisensory_device.Base.{
  ℕ, ◌+◌, ◌≤◌, ◌<◌, ◌≡◌, true, ◌&&◌, List, ◌∷◌, ◌++◌, arith, length, length-append, same_text,
}
use multisensory_device.Base.Text.{codes}
use multisensory_device.Base.Decimal.{print_decimal, length-print_decimal}
use multisensory_device.DeviceIdentity.{sample_text}
use multisensory_device.AcousticMessages.{
  AcousticMessageContext, valid_identifier, valid_base_context, expected_sample_id,
  valid_aggregate_context,
}

valid_base_context-short :
    (c : AcousticMessageContext) → valid_base_context c ≡ true → length c.device_id ≤ 64
unfolding valid_base_context valid_identifier
valid_base_context-short c h = ground (arith, h)

pub sample_text-length :
    (device_id : List ℕ) (boot_id sequence : ℕ)
    → (length device_id < length (sample_text device_id boot_id sequence))
      × (length (sample_text device_id boot_id sequence) ≤ length device_id + 22)
unfolding sample_text
sample_text-length device_id boot_id sequence =
    let device =
      length-append device_id
        (b':' ∷ (print_decimal 10 boot_id ++ (b':' ∷ print_decimal 10 sequence))) in
    let parts = length-append (print_decimal 10 boot_id) (b':' ∷ print_decimal 10 sequence) in
    let boot = length-print_decimal 10 boot_id in
    let number = length-print_decimal 10 sequence in
    (ground (arith, device, parts, boot, number), ground (arith, device, parts, boot, number))

expected_sample_id-length :
    (c : AcousticMessageContext)
    → (length c.device_id < length (expected_sample_id c))
      × (length (expected_sample_id c) ≤ length c.device_id + 31)
expected_sample_id-length c =
    let whole = length-append (sample_text c.device_id c.boot_id c.sequence) (codes ":acoustic") in
    let (longer, short) = sample_text-length c.device_id c.boot_id c.sequence in
    (ground (arith, whole, longer), ground (arith, whole, short))

-- An aggregate's context is accepted exactly if its common part is valid and its sample id is the one made of
-- the device id, the boot id and the sequence number: that text always has a length that the buffer holds.
pub valid_aggregate_context_iff :
    (c : AcousticMessageContext)
    → valid_aggregate_context c
      ≡ (valid_base_context c && same_text c.sample_id (expected_sample_id c))
unfolding valid_aggregate_context
valid_aggregate_context_iff c =
    let (longer, short) = expected_sample_id-length c in
    ground (arith, longer, short, valid_base_context-short c)
