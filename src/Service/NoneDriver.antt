-- ===== src/Service/NoneDriver.antt =====
-- `none::Servus` (servus/none/servus.h): the service without a ZeroConf implementation.
use servus.Prelude.{ℕ, Bool, false}
use servus.Prelude.Int.{ℤ}
use servus.Bytes.{Bytes, codes}
use servus.Service.{Impl, Driver, Shown}
use servus.Service.Result.{not_supported}

unfoldable pub announce : Impl → ℕ → Bytes → Impl × ℤ
announce s port instance_name = (s, not_supported)

unfoldable pub withdraw : Impl → Impl
withdraw s = s

unfoldable pub is_announced : Impl → Bool
is_announced s = false

unfoldable pub begin_browsing : Impl → Impl × ℤ
begin_browsing s = (s, not_supported)

unfoldable pub browse : Impl → Impl × ℤ
browse s = (s, not_supported)

unfoldable pub end_browsing : Impl → Impl
end_browsing s = s

unfoldable pub is_browsing : Impl → Bool
is_browsing s = false

unfoldable pub none_driver : Driver Impl
unfolding begin_browsing browse end_browsing
none_driver = record {
  begin_browsing = begin_browsing;
  browse = browse;
  end_browsing = end_browsing;
  update_record = λ s. s;
  impl = λ s. s;
  set_impl = λ _ s. s;
}

unfoldable pub shown : Impl → Shown
unfolding is_announced is_browsing
shown s = record { announced = is_announced s; browsing = is_browsing s; class_name = codes "none" }
