-- ===== src/Errors.antt =====
-- src/errors.js: the errors of the switch by their codes, and the two that src/get-peer-info.js
-- throws with no code. `other` stands for an error that a
-- transport, a muxer, the crypto or the handshake made; the number tells such errors apart.
use js_libp2p_swarm.Prelude.{ℕ}

pub data SwitchError : Type 0 where
  dial_aborted err_denied dial_self no_transports_registered : SwitchError
  invalid_state_transition unexpected_end connection_failed connection_closed : SwitchError
  no_peer_info peer_type_not_recognized invalid_peer_id : SwitchError
  other : ℕ → SwitchError

-- What a callback of multistream passes as its error: `true` ends a pull-stream.
pub data StreamEnd : Type 0 where
  ended : StreamEnd
  failed : SwitchError → StreamEnd

unfoldable pub maybe_unexpected_end : StreamEnd → SwitchError
maybe_unexpected_end ended = unexpected_end
maybe_unexpected_end (failed e) = e
