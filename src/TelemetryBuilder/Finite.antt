-- ===== src/TelemetryBuilder/Finite.antt =====
-- No message has a number that JSON cannot spell.
use multisensory_device.Base.{ℕ, Bool, ◌&&◌, List, [], ◌∷◌, ◌++◌, arith}
use multisensory_device.Floats.{Floats}
use multisensory_device.Base.Int.{ℤ}
use multisensory_device.Base.Text.{codes}
use multisensory_device.JsonWriter.{
  real, integer, leaf, AllFinite, append-AllFinite, only_if, only_if-AllFinite,
}
use multisensory_device.AcousticTypes.{AcousticData}
use multisensory_device.TelemetryData.{
  TelemetryData, Dht11Data, LightData, GpsData, AccelData, AxesData, BarometerData,
}
use multisensory_device.TelemetryBuilder.{
  in_range, dht_valid, gps_valid, accel_valid, axes_valid, baro_valid, light_valid, acoustic_valid,
  dht_members, gps_members, accel_members, gyro_members, mag_members, baro_members, light_members,
  acoustic_members, head_v2, document_v2, identity_v3, flags_v3, readings_v3, signal, is_rssi,
  counters, delivery_v3, document_v3, gps_valid_v3,
}

module _ (f : Floats) where
  dht-AllFinite : (d : Dht11Data f) → AllFinite (only_if (dht_valid f d) (dht_members f d))
  unfolding dht_valid dht_members
  dht-AllFinite d = only_if-AllFinite (dht_valid f d) (dht_members f d) (λ h. ground (arith, h))

  gps-AllFinite : (d : GpsData f) → AllFinite (only_if (gps_valid f d) (gps_members f d))
  unfolding gps_valid gps_members
  gps-AllFinite d = only_if-AllFinite (gps_valid f d) (gps_members f d) (λ h. ground (arith, h))

  accel-AllFinite : (d : AccelData f) → AllFinite (only_if (accel_valid f d) (accel_members f d))
  unfolding accel_valid accel_members
  accel-AllFinite d =
      only_if-AllFinite (accel_valid f d) (accel_members f d) (λ h. ground (arith, h))

  gyro-AllFinite : (d : AxesData f) → AllFinite (only_if (axes_valid f d) (gyro_members f d))
  unfolding axes_valid gyro_members
  gyro-AllFinite d = only_if-AllFinite (axes_valid f d) (gyro_members f d) (λ h. ground (arith, h))

  mag-AllFinite : (d : AxesData f) → AllFinite (only_if (axes_valid f d) (mag_members f d))
  unfolding axes_valid mag_members
  mag-AllFinite d = only_if-AllFinite (axes_valid f d) (mag_members f d) (λ h. ground (arith, h))

  baro-AllFinite : (d : BarometerData f) → AllFinite (only_if (baro_valid f d) (baro_members f d))
  unfolding baro_valid baro_members
  baro-AllFinite d = only_if-AllFinite (baro_valid f d) (baro_members f d) (λ h. ground (arith, h))

  light-AllFinite : (d : LightData f) → AllFinite (only_if (light_valid f d) (light_members f d))
  unfolding light_valid light_members
  light-AllFinite d =
      only_if-AllFinite (light_valid f d) (light_members f d) (λ h. ground (arith, h))

  acoustic-AllFinite :
      (d : AcousticData f) → AllFinite (only_if (acoustic_valid f d) (acoustic_members f d))
  unfolding acoustic_valid acoustic_members in_range
  acoustic-AllFinite d =
      only_if-AllFinite (acoustic_valid f d) (acoustic_members f d) (λ h. ground (arith, h))

  -- Version 3 sends a position only with its precision.
  gps_v3-AllFinite :
      (d : GpsData f)
      → AllFinite (
          only_if
            (gps_valid_v3 f d)
            (gps_members f d ++ ((codes "gps_hdop", leaf (real d.hdop)) ∷ [])))
  unfolding gps_valid gps_members
  gps_v3-AllFinite d = only_if-AllFinite (gps_valid_v3 f d) _ (λ h. ground (arith, h))

  integer-AllFinite :
      (b : Bool) (name : List ℕ) (n : ℤ)
      → AllFinite {f = f} (only_if b ((name, leaf (integer n)) ∷ []))
  integer-AllFinite b name n =
      only_if-AllFinite {f = f} b ((name, leaf (integer n)) ∷ []) (λ h. (tt, tt))

  identity_v3-AllFinite : (d : TelemetryData f) → AllFinite (identity_v3 f d)
  unfolding identity_v3
  identity_v3-AllFinite d = ground arith

  readings_v3-AllFinite : (d : TelemetryData f) → AllFinite (readings_v3 f d)
  unfolding readings_v3
  readings_v3-AllFinite d = append-AllFinite _ _ (dht-AllFinite d.dht) (
      append-AllFinite _ _ (gps_v3-AllFinite d.gps) (
        append-AllFinite _ _ (accel-AllFinite d.gy801.accel) (
          append-AllFinite _ _ (gyro-AllFinite d.gy801.gyro) (
            append-AllFinite _ _ (mag-AllFinite d.gy801.mag) (
              append-AllFinite _ _ (baro-AllFinite d.gy801.barometer) (light-AllFinite d.light))))))

  delivery_v3-AllFinite : (d : TelemetryData f) → AllFinite (delivery_v3 f d)
  unfolding delivery_v3
  delivery_v3-AllFinite d =
      append-AllFinite (signal f d) _
        (integer-AllFinite (d.wifi_connected && is_rssi d.wifi_rssi_dbm) (codes "wifi_rssi_dbm")
          d.wifi_rssi_dbm)
        (append-AllFinite (counters f d) _ (tt, (tt, (tt, (tt, tt))))
          (acoustic-AllFinite d.acoustic))

  document_v2-AllFinite : (d : TelemetryData f) → AllFinite (document_v2 f d)
  unfolding document_v2 head_v2
  document_v2-AllFinite d = append-AllFinite (head_v2 f d) _ (ground arith) (
      append-AllFinite _ _ (dht-AllFinite d.dht) (
        append-AllFinite _ _ (gps-AllFinite d.gps) (
          append-AllFinite _ _ (light-AllFinite d.light) (
            append-AllFinite _ _ (integer-AllFinite _ _ _) (
              append-AllFinite _ _ (accel-AllFinite d.gy801.accel) (
                append-AllFinite _ _ (gyro-AllFinite d.gy801.gyro) (
                  append-AllFinite _ _ (mag-AllFinite d.gy801.mag)
                    (baro-AllFinite d.gy801.barometer))))))))

  -- Whatever the sensors deliver, every number in the messages of both versions is finite: a reading that is
  -- not is left out.
  pub documents-AllFinite :
      (d : TelemetryData f) → AllFinite (document_v2 f d) × AllFinite (document_v3 f d)
  unfolding document_v3 flags_v3
  documents-AllFinite d = (
    document_v2-AllFinite d,
    append-AllFinite (identity_v3 f d) _ (identity_v3-AllFinite d) (
        append-AllFinite (flags_v3 f d) _ (ground arith) (
          append-AllFinite (readings_v3 f d) (delivery_v3 f d) (readings_v3-AllFinite d)
            (delivery_v3-AllFinite d))),
  )
