-- ===== src/Base/Texts.antt =====
-- `format!` of two texts.
use Prim.Native.String.{String}

abbrev pub concat : String → String → String
concat String.[] t = t
concat (String.◌∷◌ c s) t = String.◌∷◌ c (concat s t)
