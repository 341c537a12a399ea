-- ===== src/Connection/Identify.antt =====
-- src/connection/index.js:412-429: `_identify`, over the promises of src/utils.js:11-49, and the
-- default crypto, src/plaintext.js. What multistream, the muxer and identify answer is given; a value
-- that comes with an error is not read.
use js_libp2p_swarm.Prelude.{ℕ, ◌≡◌, Option, none, some, List, [], ◌∷◌, arith}
use js_libp2p_swarm.Errors.{SwitchError, connection_closed}

pub data Promise {ℓ} (A : Type ℓ) : Type ℓ where
  rejected : SwitchError → Promise A
  resolved : A → Promise A

-- The callback of a package: an error, or a value.
abbrev promised {ℓ} : {A : Type ℓ} → Option SwitchError → A → Promise A
promised (some e) a = rejected e
promised none a = resolved a

-- `msHandle`, which resolves with nothing
ms_handle : Option SwitchError → Promise (Unit {0})
ms_handle err = promised err (record {})

-- `msSelect`
ms_select : Option SwitchError → ℕ → Promise ℕ
ms_select err connection = promised err connection

pub record Identity : Type 0 where
  pub peer_info : ℕ
  pub observed_addrs : List ℕ

-- `identifyDialer`
identify_dialer : Option SwitchError → ℕ → List ℕ → Promise Identity
identify_dialer err peer_info observed_addrs =
    promised err (record { peer_info = peer_info; observed_addrs = observed_addrs })

-- What the packages answer, each for the connection that it is given.
pub record Packages : Type 0 where
  pub new_stream : ℕ → Option SwitchError × ℕ
  pub handle : ℕ → Option SwitchError
  pub select : ℕ → Option SwitchError × ℕ
  pub identify : ℕ → Option SwitchError × ℕ × List ℕ

pub data Effect : Type 0 where
  opens handles selects identifies : ℕ → Effect
  -- `callback(err)` and `callback(null, results)`
  failed : SwitchError → Effect
  succeeded : Identity → Effect

-- `await`: what is left runs with the value, and an error is caught.
await {ℓ} : {A : Type ℓ} → Promise A → (A → List Effect) → List Effect
await (rejected e) rest = failed e ∷ []
await (resolved a) rest = rest a

-- The listener of `newStream`.
on_stream : Packages → Option SwitchError → ℕ → List Effect
unfolding ms_handle ms_select identify_dialer await
on_stream p (some e) conn = failed e ∷ []
on_stream p none conn =
    handles conn
    ∷ await (ms_handle (p.handle conn)) (λ _.
      selects conn
      ∷ await (ms_select (p.select conn).0 (p.select conn).1) (λ ms_conn.
        identifies ms_conn
        ∷ await
            (identify_dialer (p.identify ms_conn).0 (p.identify ms_conn).1 (p.identify ms_conn).2)
            (λ results. succeeded results ∷ [])))

-- `_identify`
start_identify : Packages → Option ℕ → List Effect
unfolding on_stream
start_identify p none = failed connection_closed ∷ []
start_identify p (some muxer) =
    opens muxer ∷ on_stream p (p.new_stream muxer).0 (p.new_stream muxer).1

-- The crypto of src/plaintext.js: the connection itself, and a call without an error by
-- `setImmediate`. The callback may stand in the place of the peer's id.
pub data CryptoArgument : Type 0 where
  callback peer_id : ℕ → CryptoArgument

encrypt : (conn : ℕ) → CryptoArgument → Option ℕ → ℕ × Option ℕ
encrypt conn (callback f) last = (conn, some f)
encrypt conn (peer_id id) last = (conn, last)

-- The calls of the callback.
abbrev answers : List Effect → List Effect
answers [] = []
answers (failed e ∷ es) = failed e ∷ answers es
answers (succeeded r ∷ es) = succeeded r ∷ answers es
answers (_ ∷ es) = answers es

abbrev first_error : List (Option SwitchError) → Option SwitchError
first_error [] = none
first_error (some e ∷ es) = some e
first_error (none ∷ es) = first_error es

-- The errors of the four packages, each asked for what the one before gave.
abbrev errors : Packages → ℕ → List (Option SwitchError)
errors p muxer =
    let conn = (p.new_stream muxer).1 in
    let ms_conn = (p.select conn).1 in
    (p.new_stream muxer).0 ∷ p.handle conn ∷ (p.select conn).0 ∷ (p.identify ms_conn).0 ∷ []

abbrev identity_of : Packages → ℕ → Identity
identity_of p muxer =
    let ms_conn = (p.select (p.new_stream muxer).1).1 in
    record { peer_info = (p.identify ms_conn).1; observed_addrs = (p.identify ms_conn).2 }

abbrev concluded : Option SwitchError → Identity → Effect
concluded (some e) r = failed e
concluded none r = succeeded r

-- The callback is called once: with the first error of the packages, or else with what identify
-- found.
start_identify_lem :
    (p : Packages) (muxer : ℕ)
    → answers (start_identify p (some muxer))
      ≡ concluded (first_error (errors p muxer)) (identity_of p muxer) ∷ []
unfolding start_identify on_stream await ms_handle ms_select identify_dialer
start_identify_lem p muxer = ground arith
