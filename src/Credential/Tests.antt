-- ===== src/Credential/Tests.antt =====
-- The headers of concrete requests.
use auth_sdk_go.Base.{refl, []}
use auth_sdk_go.Base.Text.{bytes}
use auth_sdk_go.Base.Assoc.{lookup}
use auth_sdk_go.Credential.{apply_common}
use auth_sdk_go.Credential.Headers.{CarriesOne, apply_common-CarriesOne}

apply_common-CarriesOne_example :
    CarriesOne (bytes "ab0t_sk_1") (apply_common (bytes "sdk") (bytes "ab0t_sk_1") [] [])
unfolding lookup
apply_common-CarriesOne_example =
    apply_common-CarriesOne (bytes "sdk") (bytes "ab0t_sk_1") [] [] refl refl
