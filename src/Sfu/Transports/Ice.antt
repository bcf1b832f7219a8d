-- ===== src/Sfu/Transports/Ice.antt =====
-- meeting-server/sfu/server/IceLiteSession.
use meeting_system.Prelude.{Bool, true, false, List, [], ◌∷◌, ◌++◌, ◌||◌, if◌then◌else◌}
use meeting_system.Prelude.Assoc.{Text, text_beq, is_empty}
use meeting_system.Sfu.Endpoint.{Endpoint, no_endpoint}

pub record IceLiteSession : Type 0 where
  pub client_ice_ufrag : Text
  pub client_ice_pwd : Text
  pub client_candidates : List Text
  pub server_ice_ufrag : Text
  pub server_ice_pwd : Text
  pub server_candidates : List Text
  pub end_of_candidates : Bool
  pub ice_connected : Bool
  pub has_selected_endpoint : Bool
  pub selected_endpoint : Endpoint

-- `Configure`, which sets every field.
unfoldable pub configure :
    (client_ufrag client_pwd : Text)
    → (client_candidates : List Text) → (server_ufrag server_pwd : Text)
    → (server_candidates : List Text) → IceLiteSession
configure client_ufrag client_pwd client_candidates server_ufrag server_pwd server_candidates =
    record {
      client_ice_ufrag = client_ufrag;
      client_ice_pwd = client_pwd;
      client_candidates = client_candidates;
      server_ice_ufrag = server_ufrag;
      server_ice_pwd = server_pwd;
      server_candidates = server_candidates;
      end_of_candidates = false;
      ice_connected = false;
      has_selected_endpoint = false;
      selected_endpoint = no_endpoint;
    }

unfoldable pub append_client_candidate : IceLiteSession → Text → IceLiteSession
append_client_candidate s candidate =
    if is_empty candidate
    then s
    else record s { client_candidates = s.client_candidates ++ (candidate ∷ []) }

unfoldable pub mark_end_of_candidates : IceLiteSession → IceLiteSession
mark_end_of_candidates s = record s { end_of_candidates = true }

abbrev pub username_of : Text → Text → Text
username_of left right = left ++ (b':' ∷ right)

-- The user name in either order.
unfoldable pub matches_username : IceLiteSession → Text → Bool
matches_username s username =
    if is_empty username || (is_empty s.client_ice_ufrag || is_empty s.server_ice_ufrag)
    then false
    else text_beq username (username_of s.server_ice_ufrag s.client_ice_ufrag)
      || text_beq username (username_of s.client_ice_ufrag s.server_ice_ufrag)

unfoldable pub select_endpoint : IceLiteSession → Endpoint → IceLiteSession
select_endpoint s endpoint = record s {
  selected_endpoint = endpoint;
  has_selected_endpoint = true;
  ice_connected = true;
}
