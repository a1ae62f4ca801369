-- ===== src/ChannelMutex/Examples.antt =====
-- Two goroutines, one of which gives up.
use large_model_proxy.Base.{true, [], ◌∷◌, List}
use large_model_proxy.ChannelMutex.{
  Call, tries, locks, unlocks, locks_or_cancels, sees_cancel, run, new_channel_mutex,
}
use large_model_proxy.ChannelMutex.Exclusion.{IsExclusive, run-new_channel_mutex}

abbrev calls : List Call
calls = locks 1 ∷ tries 2 ∷ locks_or_cancels 2 true sees_cancel ∷ unlocks 1 ∷ locks 2 ∷ []

run-new_channel_mutex_example :
    IsExclusive (run calls (record { mutex = new_channel_mutex; holders = [] }))
run-new_channel_mutex_example = run-new_channel_mutex calls
