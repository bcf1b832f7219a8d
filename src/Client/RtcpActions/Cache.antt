-- ===== src/Client/RtcpActions/Cache.antt =====
-- The retransmission cache holds the newest packets, and answers with the newest of a number.
use meeting_system.Prelude.{ℕ, ◌≤◌, ◌<◌, ◌≡◌, List, [], ◌∷◌, ◌++◌, arith, length, min}
use meeting_system.Client.RtcpActions.{
  VideoRtcpActionPipeline, init, reset, drop_oldest, cache_sent_packet,
}

length-drop_oldest :
    (limit : ℕ) (cache : List (ℕ × List ℕ))
    → length (drop_oldest limit cache) ≡ min limit (length cache)
unfolding drop_oldest
length-drop_oldest limit [] = omega arith
length-drop_oldest limit (x ∷ cache) = ground (arith, length-drop_oldest limit cache)

-- A call that changes the cache: a packet that was sent, or a reset.
pub data Call : Type 0 where
  sent : ℕ → List ℕ → Call
  restart : Call

unfoldable pub call : VideoRtcpActionPipeline → Call → VideoRtcpActionPipeline
call p (sent seq packet) = cache_sent_packet p seq packet
call p restart = reset p

unfoldable pub run : VideoRtcpActionPipeline → List Call → VideoRtcpActionPipeline
run p [] = p
run p (c ∷ cs) = run (call p c) cs

unfoldable pub IsBounded : VideoRtcpActionPipeline → Type 0
IsBounded p =
    (0 < p.retransmit_cache_limit) × (length p.sent_packet_cache ≤ p.retransmit_cache_limit)

call-IsBounded : (p : VideoRtcpActionPipeline) (c : Call) → IsBounded p → IsBounded (call p c)
unfolding call reset cache_sent_packet IsBounded
call-IsBounded p (sent seq []) h = h
call-IsBounded p (sent seq (b ∷ bytes)) h = (
  h.0,
  omega (
    arith,
    length-drop_oldest p.retransmit_cache_limit (p.sent_packet_cache ++ ((seq, b ∷ bytes) ∷ [])),
  ),
)
call-IsBounded p restart h = (h.0, omega arith)

run-IsBounded : (p : VideoRtcpActionPipeline) (cs : List Call) → IsBounded p → IsBounded (run p cs)
unfolding run
run-IsBounded p [] h = h
run-IsBounded p (c ∷ cs) h = run-IsBounded (call p c) cs (call-IsBounded p c h)

-- Whatever is cached after the construction, the cache stays within its limit, which is not 0.
pub run-init-IsBounded : (limit : ℕ) (cs : List Call) → IsBounded (run (init limit) cs)
unfolding init IsBounded
run-init-IsBounded limit cs = run-IsBounded (init limit) cs (omega arith, omega arith)
