-- ===== src/Common/Tests.antt =====
-- Witnesses for the helpers of common/bytes.go.
use go_fiscobcos.Base.{◌≡◌, [], ◌∷◌, arith}
use go_fiscobcos.Common.{to_hex, from_hex}
use go_fiscobcos.Common.Hex.{from_hex-to_hex}

from_hex-to_hex_example : from_hex (to_hex (0 ∷ 255 ∷ 18 ∷ [])) ≡ 0 ∷ 255 ∷ 18 ∷ []
from_hex-to_hex_example =
    from_hex-to_hex (0 ∷ 255 ∷ 18 ∷ []) (omega arith, (omega arith, (omega arith, tt)))
