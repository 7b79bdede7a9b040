-- ===== src/Hopa/Examples/Encoding.antt =====
-- The packet builders.
use repath.Base.{◌≡◌, refl}
use repath.Hopa.Packet.{hopa_cp_hdr_size, frame_bytes, src_ip}

-- The struct has 48 bytes, and a packet 90.
sizes : (hopa_cp_hdr_size ≡ 48) × (frame_bytes ≡ 90) × (src_ip ≡ 0xc0a8c802)
sizes = (refl, refl, refl)
