-- ===== src/Rollout/Version/Order.antt =====
-- The order on versions is a total order.
use dev_platform.Base.{◌≡◌, true, false, arith}
use dev_platform.Rollout.Version.{Version, version_ltb, version_leb}

pub version_ltb_irrefl : (v : Version) → version_ltb v v ≡ false
unfolding version_ltb
version_ltb_irrefl (a, b, c) = ground arith

pub version_ltb_trans :
    (u v w : Version) → version_ltb u v ≡ true → version_ltb v w ≡ true → version_ltb u w ≡ true
unfolding version_ltb
version_ltb_trans (a, b, c) (x, y, z) (p, q, r) h k = ground arith

pub version_ltb_asymm : (v w : Version) → version_ltb v w ≡ true → version_ltb w v ≡ false
unfolding version_ltb
version_ltb_asymm (a, b, c) (x, y, z) h = ground arith

pub version_leb_trans :
    (u v w : Version) → version_leb u v ≡ true → version_leb v w ≡ true → version_leb u w ≡ true
unfolding version_leb
version_leb_trans (a, b, c) (x, y, z) (p, q, r) h k = ground arith
