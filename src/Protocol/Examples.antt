-- ===== src/Protocol/Examples.antt =====
-- An instance of the separation of the signing domains.
use mesh_alot.Prelude.Text.{Text}

abbrev same : Text → Text
same body = body
