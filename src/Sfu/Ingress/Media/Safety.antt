-- ===== src/Sfu/Ingress/Media/Safety.antt =====
-- Every datagram is handled to the end, inside its bytes; a media packet from the wrong endpoint is
-- refused.
use meeting_system.Sfu.Endpoint.{Endpoint}
