-- ===== src/Config/Tests.antt =====
-- The theorem on loading, at a file that the decoder fills in without a file of agents.
use crispy_garbanzo.Base.{String, ◌==◌, if◌then◌else◌}
use crispy_garbanzo.Config.{
  Config, defaults, Contents, missing, contents, Decoded, filled, refused, load,
}
use crispy_garbanzo.Config.Loading.{Loaded, load-Loaded}

abbrev files : String → Contents
files path = if path == "/etc/clawgress.json" then contents "no agents" else missing

abbrev no_agents : Config
no_agents = record defaults { files = record defaults.files { agents = "" } }

abbrev decoder : String → Config → Decoded
decoder text cfg = if text == "no agents" then filled no_agents else refused cfg

load-Loaded_example :
    Loaded files decoder "/etc/clawgress.json" (load files decoder "/etc/clawgress.json")
load-Loaded_example = load-Loaded files decoder "/etc/clawgress.json"
