-- ===== src/StartUp/Program.antt =====
-- main.go, lines 110-134 and 175-188, config.go, lines 247-294, tty.go, lines 33-53, and openai_api.go, lines
-- 286-295: what main does before it waits for a signal. The files and the decoders are arguments.
pub mod Ports
pub mod Listens
use Prim.Native.String.{◌++◌ as append}
use large_model_proxy.Base.{
  String, Bool, true, false, List, [], ◌∷◌, ◌++◌, Dict, Option, none, some, if◌then◌else◌,
}
use large_model_proxy.Config.{Config, ServiceConfig, ResourceAvailable, is_blank}
use large_model_proxy.Config.Url.{Library}
use large_model_proxy.Config.Validation.{Issue, Loaded, loaded, refused, load_config}

-- What os.ReadFile, the conversion from JSONC and the decoder make of a file.
pub data Reading : Type 0 where
  unreadable undecodable extra_data : Reading
  decoded : Config → Reading

-- The choice of the file: the flag's, or the first of two that is there.
unfoldable pub config_file_path : (String → Bool) → String → Option String
config_file_path exists path =
    if is_blank path
    then (if exists "config.json"
        then some "config.json"
        else if exists "config.jsonc"
        then some "config.jsonc"
        else none)
    else some path

-- The goroutines of main, in the order of their start.
pub data Goroutine : Type 0 where
  monitors : String → ResourceAvailable → Goroutine
  proxies : ServiceConfig → Goroutine
  serves_open_ai serves_management : String → Goroutine

unfoldable pub monitors_of : Dict ResourceAvailable → List Goroutine
monitors_of [] = []
monitors_of ((r, a) ∷ rs) =
    (if is_blank a.check_command then [] else monitors r a ∷ []) ++ monitors_of rs

unfoldable pub proxies_of : List ServiceConfig → List Goroutine
proxies_of [] = []
proxies_of (s ∷ ss) = (if is_blank s.listen_port then [] else proxies s ∷ []) ++ proxies_of ss

abbrev pub api_if : (String → Goroutine) → String → List Goroutine
api_if make port = if is_blank port then [] else make port ∷ []

unfoldable pub goroutines : Config → List Goroutine
unfolding monitors_of proxies_of
goroutines c =
    monitors_of c.resources_available
    ++ (proxies_of c.services
        ++ (api_if serves_open_ai c.open_ai_api_listen_port
            ++ api_if serves_management c.management_api_listen_port))

-- The exits of main, or the configuration that it starts with and its goroutines.
pub data Start : Type 0 where
  no_config_file not_read not_decoded has_extra_data : Start
  is_invalid : List Issue → Start
  starts : Config → List Goroutine → Start

abbrev pub start_loaded : Loaded → Start
start_loaded (loaded c) = starts c (goroutines c)
start_loaded (refused c issues) = is_invalid issues

abbrev pub start_read : Library → Reading → Start
start_read lib unreadable = not_read
start_read lib undecodable = not_decoded
start_read lib extra_data = has_extra_data
start_read lib (decoded c) = start_loaded (load_config lib c)

abbrev pub start_from : Library → (String → Reading) → Option String → Start
start_from lib read none = no_config_file
start_from lib read (some path) = start_read lib (read path)

unfoldable pub main_start : Library → (String → Bool) → (String → Reading) → String → Start
unfolding config_file_path goroutines
main_start lib exists read path = start_from lib read (config_file_path exists path)

-- FprintfError: the bytes on stderr for a message, in bright red on a terminal.
unfoldable pub fprintf_error : Bool → String → String
fprintf_error is_terminal message =
    if is_terminal then append "\u{1b}[1;31m" (append message "\u{1b}[0m") else message

-- A signal other than the two has the name that the operating system gives it.
pub data Signal : Type 0 where
  sigint sigterm : Signal
  other_signal : String → Signal

unfoldable pub signal_to_string : Signal → String
signal_to_string sigint = "SIGINT"
signal_to_string sigterm = "SIGTERM"
signal_to_string (other_signal name) = name
