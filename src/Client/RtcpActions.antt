-- ===== src/Client/RtcpActions.antt =====
-- plasma-hawking/src/av/session/VideoRtcpActionPipeline: the picture loss indications that the client
-- sends, and the packets that it keeps for retransmission. The socket is a parameter: whether it is
-- open with a peer, and what sending bytes answers.
pub mod RoundTrip
pub mod Cache
use meeting_system.Prelude.{
  ℕ, Bool, true, false, List, [], ◌∷◌, ◌++◌, Option, none, some, not, ◌||◌, ltb, ◌==◌,
  if◌then◌else◌, length, max,
}
use meeting_system.Prelude.Int.{ℤ, pos, negsuc}
use meeting_system.Prelude.Bytes.{put32}

pub record VideoRtcpActionPipeline : Type 0 where
  pub retransmit_cache_limit : ℕ
  pub sent_packet_cache : List (ℕ × List ℕ)

unfoldable pub init : ℕ → VideoRtcpActionPipeline
init limit = record { retransmit_cache_limit = max 1 limit; sent_packet_cache = [] }

unfoldable pub reset : VideoRtcpActionPipeline → VideoRtcpActionPipeline
reset p = record p { sent_packet_cache = [] }

-- The loop that drops the oldest packets while there are more than the limit.
unfoldable pub drop_oldest : ℕ → List (ℕ × List ℕ) → List (ℕ × List ℕ)
drop_oldest limit [] = []
drop_oldest limit (x ∷ cache) =
    let rest = drop_oldest limit cache in if ltb limit (length (x ∷ cache)) then rest else x ∷ cache

unfoldable pub cache_sent_packet : VideoRtcpActionPipeline → ℕ → List ℕ → VideoRtcpActionPipeline
cache_sent_packet p seq [] = p
cache_sent_packet p seq (b ∷ bytes) = record p {
  sent_packet_cache =
      drop_oldest p.retransmit_cache_limit (p.sent_packet_cache ++ ((seq, b ∷ bytes) ∷ []));
}

abbrev pub or_later : Option (List ℕ) → Bool → List ℕ → Option (List ℕ)
or_later (some later) here bytes = some later
or_later none true bytes = some bytes
or_later none false bytes = none

-- The loop from the newest packet to the oldest: the newest of that number.
unfoldable pub find_newest : ℕ → List (ℕ × List ℕ) → Option (List ℕ)
find_newest seq [] = none
find_newest seq ((j, bytes) ∷ cache) =
    let later = find_newest seq cache in or_later later (j == seq) bytes

abbrev pub is_all : ℤ → List ℕ → Bool
is_all (pos n) bytes = n == length bytes
is_all (negsuc n) bytes = false

-- The result, and whether an error is reported.
abbrev pub send_found : (List ℕ → ℤ) → Option (List ℕ) → Bool × Bool
send_found send none = (false, false)
send_found send (some bytes) = if is_all (send bytes) bytes then (true, false) else (false, true)

unfoldable pub retransmit_packet : Bool → (List ℕ → ℤ) → VideoRtcpActionPipeline → ℕ → Bool × Bool
retransmit_packet ready send p seq =
    if not ready then (false, false) else send_found send (find_newest seq p.sent_packet_cache)

unfoldable pub build_picture_loss_indication : ℕ → ℕ → List ℕ
build_picture_loss_indication sender_ssrc media_ssrc =
    if media_ssrc == 0 then [] else 0x81 ∷ 206 ∷ 0 ∷ 2 ∷ put32 sender_ssrc ++ put32 media_ssrc

-- The result, and whether an error is reported.
unfoldable pub send_picture_loss_indication : Bool → (List ℕ → ℤ) → ℕ → ℕ → Bool × Bool
unfolding build_picture_loss_indication
send_picture_loss_indication ready send sender_ssrc media_ssrc =
    if not ready || media_ssrc == 0
    then (false, false)
    else send_found send (some (build_picture_loss_indication sender_ssrc media_ssrc))
