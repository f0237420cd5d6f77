-- ===== src/Tests/Common.antt =====
-- txCommon.hpp: codes read as errors.
use threadx_cpp.Prelude.{◌≡◌, refl}
use threadx_cpp.Common.{ceiling_exceeded, unnamed, to_error}

to_error_runs : to_error 0x21 ≡ ceiling_exceeded
unfolding to_error
to_error_runs = refl

to_error_unnamed : to_error 99 ≡ unnamed 99
unfolding to_error
to_error_unnamed = refl
