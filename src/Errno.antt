-- ===== src/Errno.antt =====
-- The error numbers of errno.h that the servers return, negated as they return them.
use global_components.Prelude.Int.{ℤ, pos, negsuc}

-- Success.
abbrev pub success : ℤ
success = pos 0

abbrev pub minus_eperm : ℤ
minus_eperm = negsuc 0

abbrev pub minus_ebusy : ℤ
minus_ebusy = negsuc 15

abbrev pub minus_enodev : ℤ
minus_enodev = negsuc 18

abbrev pub minus_einval : ℤ
minus_einval = negsuc 21

-- `-EBADF`
abbrev pub minus_ebadf : ℤ
minus_ebadf = negsuc 8

-- `-ENOMEM`
abbrev pub minus_enomem : ℤ
minus_enomem = negsuc 11
