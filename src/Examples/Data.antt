-- ===== src/Examples/Data.antt =====
-- The concrete store is valid.
use unix_notis.Prelude.{nat_eq, refl, arith}
use unix_notis.Prelude.Maps.{elem, keys, values, lookup}
use unix_notis.Store.Inhibit.{inhibits_popups}
use unix_notis.Store.Inhibit.Cache.{CacheValid}
use unix_notis.Store.Lifecycle.Invariant.{IsValid}
use unix_notis.Examples.{busy}

pub busy-IsValid : IsValid busy
unfolding keys elem lookup
busy-IsValid = record {
  sound = record {
    active_distinct = (refl, (refl, tt));
    active_keyed = (refl, (refl, tt));
    history_fits = record {
      valid = record {
        order_distinct = (refl, tt);
        keys_distinct = (refl, tt);
        same_ids = λ k. refl;
      };
      bounded = omega arith;
    };
    apart = λ k h. ground (arith, h);
    timers = λ k h. ground (arith, h);
    next_id_IsId = omega arith;
  };
  active_bounded = omega arith;
  entries_sane = omega arith;
}

pub busy-CacheValid : CacheValid busy
unfolding keys elem values inhibits_popups
busy-CacheValid = record {
  count = refl;
  flag = refl;
  distinct = (refl, tt);
  below = λ room k h. ground (arith, h);
}
