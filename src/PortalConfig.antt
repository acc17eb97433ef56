-- ===== src/PortalConfig.antt =====
-- app/portalcfg.py: the structured editing of a portal's configuration.
pub mod Modules
pub mod Form
mod Tests
use masterportal_admin.Base.{String, Bool, true, List, [], ◌∷◌, map}
use masterportal_admin.Json.{Value, bool, str, arr, obj, Fields, end, field, of_list}

-- `CONTROLS`
unfoldable pub controls : List String
controls =
    "zoom" ∷ "orientation" ∷ "fullScreen" ∷ "totalView" ∷ "rotation" ∷ "backForward" ∷ "button3d"
    ∷ []

-- One entry of `MODULES`: whether it needs a configuration, its type and its label.
pub data Module : Type 0 where
  plain needs_config : String → String → Module

-- `MODULES`
unfoldable pub modules : List Module
modules =
    Module.plain "about" "About / imprint"
    ∷ Module.plain "legend" "Legend"
    ∷ Module.needs_config "contact" "Contact form"
    ∷ Module.plain "shareView" "Share view"
    ∷ Module.plain "measure" "Measure"
    ∷ Module.plain "draw" "Draw / annotate"
    ∷ Module.plain "coordToolkit" "Coordinates"
    ∷ Module.plain "scaleSwitcher" "Scale switcher"
    ∷ Module.plain "fileImport" "File import (KML/GeoJSON/GPX)"
    ∷ Module.plain "openConfig" "Load config at runtime"
    ∷ Module.plain "selectFeatures" "Select features"
    ∷ Module.plain "language" "Language switch"
    ∷ Module.plain "news" "News feed"
    ∷ Module.needs_config "shadow" "3D shadow"
    ∷ Module.plain "styleVT" "Vector-tile style switch"
    ∷ Module.plain "compareMaps" "Compare maps (swipe)"
    ∷ Module.needs_config "layerClusterToggler" "Cluster toggler"
    ∷ Module.needs_config "print" "Print (PDF)"
    ∷ Module.needs_config "measure3d" "3D measure"
    ∷ Module.plain "login" "Login"
    ∷ []

abbrev pub module_type : Module → String
module_type (Module.plain type label) = type
module_type (Module.needs_config type label) = type

-- `{"type": t, **info}`
abbrev pub catalog_entry : Module → Value
catalog_entry (Module.plain type label) =
    obj (field "type" (str type) (field "label" (str label) end))
catalog_entry (Module.needs_config type label) =
    obj (field "type" (str type) (field "label" (str label) (field "needs_config" (bool true) end)))

unfoldable pub module_catalog : Value
unfolding modules
module_catalog = arr (of_list (map catalog_entry modules))
