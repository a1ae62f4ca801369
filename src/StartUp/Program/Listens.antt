-- ===== src/StartUp/Program/Listens.antt =====
-- main.go and config.go: the ports that a program with an accepted configuration listens on.
use large_model_proxy.Config.{Config}
