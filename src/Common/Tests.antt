-- ===== src/Common/Tests.antt =====
-- Tests of kern/sivfs_common.h and kern/sivfs_types.h at concrete inputs.
use sivfs_public.Base.{◌≡◌, refl}
use sivfs_public.Common.{max3}

max3-picks : (max3 3 9 4 ≡ 9) × (max3 3 4 9 ≡ 9) × (max3 9 4 9 ≡ 9)
unfolding max3
max3-picks = (refl, refl, refl)
