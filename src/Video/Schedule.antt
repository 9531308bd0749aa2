-- ===== src/Video/Schedule.antt =====
-- What a sender of video_unreliable.rs has sent, by the counted number of each kypacket, and what a
-- receiver may hold of it.
use plank_kymux.Common.{ℕ, ◌≤◌, ◌<◌, ◌≡◌, Bool, true, false, List, ok}
use plank_kymux.Wire.{Bytes}
use plank_kymux.Av.Packet.{AvPacket, MediaPacket}
use plank_kymux.Av.Headers.{IsMediaHeader}
use plank_kymux.Video.Sender.{wire}
use plank_kymux.Video.Sender.Pieces.{concat}

pub record Schedule : Type 0 where
  -- the group number that kypacket `k` carries
  pub group_of : ℕ → ℕ
  -- whether it went over the stream, as a config packet
  pub config : ℕ → Bool
  pub packet_of : ℕ → AvPacket
  -- the pieces of its datagrams, if it did not
  pub pieces_of : ℕ → List Bytes

-- The media packet `k` with its wire form, of which the pieces are a cut.
pub record IsMediaAt (t : Schedule) (k : ℕ) : Type 0 where
  pub media : MediaPacket
  pub bytes : Bytes
  pub same : t.packet_of k ≡ AvPacket.media media
  pub header : IsMediaHeader media.header
  pub wired : wire media ≡ ok bytes
  pub cut : concat (t.pieces_of k) ≡ bytes

-- Group numbers do not fall, and a config packet opens a new group.
pub record IsSchedule (t : Schedule) : Type 0 where
  pub mono : (m n : ℕ) → m ≤ n → t.group_of m ≤ t.group_of n
  pub config_first : (m k : ℕ) → t.config k ≡ true → m < k → t.group_of m < t.group_of k
  pub media_at : (k : ℕ) → t.config k ≡ false → IsMediaAt t k
  pub config_at :
      (k : ℕ) → t.config k ≡ true → (m : MediaPacket) × (t.packet_of k ≡ AvPacket.media m)
