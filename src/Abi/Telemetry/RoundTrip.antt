-- ===== src/Abi/Telemetry/RoundTrip.antt =====
-- abi/src/lib.rs, telemetry payloads: decoding what was encoded, and the short buffers.
use sand_os.Base.{
  ℕ, suc, ◌+◌, ◌^◌, ◌≤◌, ◌<◌, ◌≡◌, refl, ap, ◌∙◌, ◌⊎◌, inl, inr, List, [], ◌∷◌, ◌++◌, true, false,
  Option, none, some, ltb, le→ltb, lt→ltb, arith, length, take, drop, length-drop,
  take-length_append,
}
use sand_os.Base.Bytes.{to_le_bytes}
use sand_os.Abi.Telemetry.{
  ImuTelemetry, OdometryTelemetry, TelemetryPacket, imu, odometry, imu_size, odometry_size,
  type_imu, type_odometry, imu_to_cdr, odometry_to_cdr, imu_from_cdr, odometry_from_cdr, serialize,
  deserialize,
}
use sand_os.Abi.Telemetry.Layout.{
  imu_layout, odometry_layout, as_bytes-write_imu, as_bytes-write_odometry,
}
use sand_os.Abi.Telemetry.Fields.{
  IsImu, IsOdometry, imu_from_cdr-layout, imu_fields_lem, odometry_from_cdr-layout,
  odometry_fields_lem,
}

-- With room the serializers write the layout over the front of the buffer and leave the rest.
pub imu_to_cdr-layout :
    (t : ImuTelemetry) (buf : List ℕ)
    → imu_size ≤ length buf
    → imu_to_cdr t buf ≡ (imu_size, imu_layout t ++ drop imu_size buf)
unfolding imu_to_cdr to_le_bytes sand_os.Base.splice
imu_to_cdr-layout t buf h = rw (le→ltb (length buf) imu_size h, as_bytes-write_imu)

pub odometry_to_cdr-layout :
    (t : OdometryTelemetry) (buf : List ℕ)
    → odometry_size ≤ length buf
    → odometry_to_cdr t buf ≡ (odometry_size, odometry_layout t ++ drop odometry_size buf)
unfolding odometry_to_cdr to_le_bytes sand_os.Base.splice
odometry_to_cdr-layout t buf h = rw (le→ltb (length buf) odometry_size h, as_bytes-write_odometry)

pub imu_from_cdr-imu_to_cdr :
    (t : ImuTelemetry) (buf : List ℕ)
    → IsImu t
    → imu_size ≤ length buf
    → imu_from_cdr (imu_to_cdr t buf).1 ≡ some t
imu_from_cdr-imu_to_cdr t buf v h =
    rw (imu_to_cdr-layout t buf h, imu_from_cdr-layout t (drop imu_size buf), imu_fields_lem t v)
      refl

pub length-imu_to_cdr :
    (t : ImuTelemetry) (buf : List ℕ)
    → imu_size ≤ length buf
    → length (imu_to_cdr t buf).1 ≡ length buf
unfolding to_le_bytes
length-imu_to_cdr t buf h =
    rw (imu_to_cdr-layout t buf h) (omega (arith, length-drop imu_size buf, h))

pub length-odometry_to_cdr :
    (t : OdometryTelemetry) (buf : List ℕ)
    → odometry_size ≤ length buf
    → length (odometry_to_cdr t buf).1 ≡ length buf
unfolding to_le_bytes
length-odometry_to_cdr t buf h =
    rw (odometry_to_cdr-layout t buf h) (omega (arith, length-drop odometry_size buf, h))

pub odometry_from_cdr-odometry_to_cdr :
    (t : OdometryTelemetry) (buf : List ℕ)
    → IsOdometry t
    → odometry_size ≤ length buf
    → odometry_from_cdr (odometry_to_cdr t buf).1 ≡ some t
odometry_from_cdr-odometry_to_cdr t buf v h =
    rw
      (
        odometry_to_cdr-layout t buf h,
        odometry_from_cdr-layout t (drop odometry_size buf),
        odometry_fields_lem t v,
      )
      refl

-- Every field of the packet is a value of its Rust type.
abbrev pub IsPacket : TelemetryPacket → Type 0
IsPacket (imu t) = IsImu t
IsPacket (odometry t) = IsOdometry t

-- The bytes that a packet takes on the wire: its type, then its payload.
abbrev pub packet_size : TelemetryPacket → ℕ
packet_size (imu t) = 37
packet_size (odometry t) = 21

abbrev pub packet_layout : TelemetryPacket → List ℕ
packet_layout (imu t) = type_imu ∷ imu_layout t
packet_layout (odometry t) = type_odometry ∷ odometry_layout t

-- With room `serialize` writes the type byte and the payload over the front of the buffer, leaves
-- the rest of the buffer, and returns the number of bytes written.
pub serialize-layout :
    (p : TelemetryPacket) (buf : List ℕ)
    → packet_size p ≤ length buf
    → serialize p buf ≡ (packet_size p, packet_layout p ++ drop (packet_size p) buf)
unfolding serialize
serialize-layout p [] h = absurd (too_short p h)
  where
    too_short : (q : TelemetryPacket) → ¬ (packet_size q ≤ 0)
    too_short (imu t) k = omega arith
    too_short (odometry t) k = omega arith
serialize-layout (imu t) (b ∷ buf) h =
    rw (le→ltb (suc (length buf)) 37 h, imu_to_cdr-layout t buf (omega arith))
serialize-layout (odometry t) (b ∷ buf) h =
    rw (le→ltb (suc (length buf)) 21 h, odometry_to_cdr-layout t buf (omega arith))

deserialize-layout :
    (p : TelemetryPacket) (rest : List ℕ)
    → IsPacket p
    → deserialize (packet_layout p ++ rest) ≡ some p
unfolding deserialize
deserialize-layout (imu t) rest v = rw (imu_from_cdr-layout t rest, imu_fields_lem t v)
deserialize-layout (odometry t) rest v =
    rw (odometry_from_cdr-layout t rest, odometry_fields_lem t v)

-- A packet serialized into any buffer with room for it is read back unchanged, whatever the buffer
-- held behind it.
pub deserialize-serialize :
    (p : TelemetryPacket) (buf : List ℕ)
    → IsPacket p
    → packet_size p ≤ length buf
    → deserialize (serialize p buf).1 ≡ some p
deserialize-serialize p buf v h =
    rw (serialize-layout p buf h) (deserialize-layout p (drop (packet_size p) buf) v)

-- Without room nothing is written and the count is 0.
pub serialize_short :
    (p : TelemetryPacket) (buf : List ℕ) → length buf < packet_size p → serialize p buf ≡ (0, buf)
unfolding serialize
serialize_short (imu t) buf h = rw (lt→ltb (length buf) 37 h)
serialize_short (odometry t) buf h = rw (lt→ltb (length buf) 21 h)

-- Whatever arrives, a packet is decoded only from a known type byte and a payload that is long
-- enough for that type.
pub deserialize_needs :
    (kind : ℕ) (rest : List ℕ) (p : TelemetryPacket)
    → deserialize (kind ∷ rest) ≡ some p
    → ((kind ≡ type_imu) × (imu_size ≤ length rest))
      ⊎ ((kind ≡ type_odometry) × (odometry_size ≤ length rest))
unfolding deserialize
deserialize_needs kind rest p h = ground arith
