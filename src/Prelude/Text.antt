-- ===== src/Prelude/Text.antt =====
-- Python's `+` on texts.
use Prim.Native.String.{String}

unfoldable pub concat : String → String → String
concat String.[] t = t
concat (String.◌∷◌ c s) t = String.◌∷◌ c (concat s t)
