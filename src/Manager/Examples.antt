-- ===== src/Manager/Examples.antt =====
-- The image model waits for memory while the last connection to the text model closes.
use large_model_proxy.Base.{
  refl, [], ◌∷◌, Dict, lookup, lookup_or, none, pos, negsuc, add, wrap, ◌+ℤ◌, inl,
}
use large_model_proxy.Config.{ServiceConfig}
use large_model_proxy.Manager.{ResourceManager, increment_connection}
use large_model_proxy.Manager.Wakeups.{IsWoken, increment_connection-IsWoken}
use large_model_proxy.Samples.{idle, text_model}

abbrev configs : Dict ServiceConfig
configs = ("text", text_model) ∷ []

abbrev one_left : ResourceManager
one_left = record idle {
  connection_stats = ("text", record { proxied = pos 1; waiting = pos 0 }) ∷ [];
  resource_change_by_resource_chans = ("VRAM", ("image", none) ∷ []) ∷ [];
}

increment_connection-IsWoken_example :
    IsWoken "VRAM" "image" (increment_connection configs one_left "text" (negsuc 0) (pos 0))
unfolding lookup lookup_or add wrap ◌+ℤ◌
increment_connection-IsWoken_example =
    increment_connection-IsWoken "VRAM" "image" configs one_left "text" (negsuc 0) (pos 0)
      text_model refl refl (inl refl) (("image", none) ∷ [], refl, (none, refl))
