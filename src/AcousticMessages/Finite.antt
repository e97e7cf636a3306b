-- ===== src/AcousticMessages/Finite.antt =====
-- The numbers of the messages about a sound.
use multisensory_device.Base.{ℕ, ◌≡◌, true, List, [], ◌∷◌, arith}
use multisensory_device.Base.Text.{codes}
use multisensory_device.Floats.{Floats}
use multisensory_device.AcousticTypes.{AcousticData, AcousticAlertStatus}
use multisensory_device.TelemetryBuilder.{in_range, text_of}
use multisensory_device.JsonWriter.{AllFinite, append-AllFinite, only_if, only_if-AllFinite}
use multisensory_device.AcousticMessages.{
  AcousticMessageContext, valid_analysis, valid_alert, stamp_of, identity_members, simulated_member,
  context_members, band_members, aggregate_head, validity_members, event_head, event_tail,
  analysis_members, aggregate_document, detail_members, event_document, accepts_event,
}

module _ (f : Floats) where
  stamp-AllFinite :
      (name : List ℕ) (c : AcousticMessageContext) → AllFinite {f = f} (stamp_of name c)
  stamp-AllFinite name c =
      only_if-AllFinite c.time_valid (text_of f name c.measured_at ∷ []) (λ h. (tt, tt))

  context-AllFinite : (c : AcousticMessageContext) → AllFinite (context_members f c)
  unfolding context_members
  context-AllFinite c =
      append-AllFinite (identity_members f c) _ (tt, (tt, (tt, (tt, (tt, (tt, (tt, tt)))))))
        (append-AllFinite (stamp_of (codes "measured_at") c) (simulated_member f c)
          (stamp-AllFinite (codes "measured_at") c) (tt, tt))

  analysis-AllFinite :
      (d : AcousticData f) → AllFinite (only_if (valid_analysis f d) (analysis_members f d))
  unfolding valid_analysis analysis_members band_members in_range
  analysis-AllFinite d =
      only_if-AllFinite (valid_analysis f d) (analysis_members f d) (λ h. ground (arith, h))

  aggregate-AllFinite :
      (c : AcousticMessageContext) (d : AcousticData f) → AllFinite (aggregate_document f c d)
  unfolding aggregate_document
  aggregate-AllFinite c d =
      append-AllFinite (aggregate_head f) _ (tt, (tt, tt))
        (append-AllFinite (context_members f c) _ (context-AllFinite c)
          (append-AllFinite (validity_members f d) _ (tt, (tt, (tt, tt))) (analysis-AllFinite d)))

  event_tail-AllFinite :
      (c : AcousticMessageContext) (d : AcousticData f) (a : AcousticAlertStatus f)
      → valid_alert f a ≡ true
      → valid_analysis f d ≡ true
      → AllFinite (event_tail f c d a)
  unfolding valid_alert valid_analysis in_range detail_members
  event_tail-AllFinite c d a h k = ground (arith, h, k)

  event-AllFinite :
      (c : AcousticMessageContext) (d : AcousticData f) (a : AcousticAlertStatus f)
      (event_id : List ℕ)
      → accepts_event f c d a event_id ≡ true
      → AllFinite (event_document f c d a event_id)
  unfolding accepts_event event_document
  event-AllFinite c d a event_id h =
      append-AllFinite (event_head f c a event_id) _
        (tt, (tt, (tt, (tt, (tt, (tt, (tt, (tt, (tt, tt)))))))))
        (append-AllFinite (stamp_of (codes "occurred_at") c) (event_tail f c d a)
          (stamp-AllFinite (codes "occurred_at") c)
          (event_tail-AllFinite c d a (ground (arith, h)) (ground (arith, h))))

  -- An aggregate has finite numbers only, whatever the analysis gave and whether the builder accepts its
  -- context or not; and so has every event that the builder accepts.
  pub messages-AllFinite :
      (c : AcousticMessageContext) (d : AcousticData f) (a : AcousticAlertStatus f)
      (event_id : List ℕ)
      → AllFinite (aggregate_document f c d)
        × AllFinite (only_if (accepts_event f c d a event_id) (event_document f c d a event_id))
  messages-AllFinite c d a event_id = (
    aggregate-AllFinite c d,
    only_if-AllFinite (accepts_event f c d a event_id) (event_document f c d a event_id)
        (event-AllFinite c d a event_id),
  )
