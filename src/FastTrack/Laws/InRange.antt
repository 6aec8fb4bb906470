-- ===== src/FastTrack/Laws/InRange.antt =====
-- A step of the cipher stays inside its arrays.
use mldonkey.FastTrack.Cipher.{Cipher}
