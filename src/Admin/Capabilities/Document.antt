-- ===== src/Admin/Capabilities/Document.antt =====
-- The document of capabilities, and the entries that `import_capabilities` of app/admin.py finds in it.
use Prim.Native.Char.{code}
use masterportal_admin.Base.{
  ℕ, String, true, false, ◌==◌, eqb, Option, none, some, List, [], ◌∷◌, ◌++◌, if◌then◌else◌,
}
use masterportal_admin.Base.Text.{concat, has_char, strip, truthy}
use masterportal_admin.Json.{bool, str, Fields, end, field}

-- `CAPS_MAX_BYTES`
unfoldable pub caps_max_bytes : ℕ
caps_max_bytes = 20971520

-- A tree of XML: the tag, the attribute `version`, the text and the children of an element.
mutual
  pub data Element : Type 0 where
    element : String → Option String → Option String → Elements → Element

  pub data Elements : Type 0 where
    nil : Elements
    cons : Element → Elements → Elements

-- `tag.rsplit("}", 1)[-1]`
unfoldable pub local_name : String → String
local_name String.[] = ""
local_name (String.◌∷◌ c s) =
    let rest = local_name s in
    if has_char b'}' s then rest else if eqb (code c) b'}' then s else String.◌∷◌ c s

-- `(child.text or "").strip()`
abbrev pub layer_text : Option String → String
layer_text none = ""
layer_text (some s) = strip s

-- The last child of that name, if there is one.
unfoldable pub child_text : String → Elements → Option String → Option String
unfolding local_name
child_text name Elements.nil found = found
child_text name (Elements.cons (Element.element tag version text children) rest) found =
    child_text name rest (if local_name tag == name then some (layer_text text) else found)

-- The entry of a layer with a name.
abbrev pub layer_entry : String → String → String → String → String → Fields
layer_entry id_prefix base version name title =
    field "id" (str (concat (id_prefix ∷ "_" ∷ name ∷ []))) (
      field "name" (str title) (
        field "url" (str base) (
          field "typ" (str "WMS") (
            field "layers" (str name) (
              field "format" (str "image/png") (
                field "version" (str version) (
                  field "transparent" (bool true) (
                    field "singleTile" (bool false)
                      (field "gfiAttributes" (str "showAll") end)))))))))

-- `title or name`
abbrev pub title_or : Option String → String → String
title_or none name = name
title_or (some title) name = if truthy title then title else name

abbrev pub named_layer :
    String → String → String → Option String → Option String → List (String × Fields)
named_layer id_prefix base version none title = []
named_layer id_prefix base version (some name) title =
    if truthy name
    then (
      concat (id_prefix ∷ "_" ∷ name ∷ []),
      layer_entry id_prefix base version name (title_or title name),
    )
      ∷ []
    else []

-- What an element gives by itself: an entry with its id, if it is a layer with a name.
abbrev pub own_entry : String → String → String → String → Elements → List (String × Fields)
own_entry id_prefix base version tag children =
    if local_name tag == "Layer"
    then named_layer id_prefix base version (child_text "Name" children none)
        (child_text "Title" children none)
    else []

module _ (id_prefix base version : String) where
  unfoldable mutual
    unfolding child_text

    -- The loop over `root.iter()`: the element, then all that is below it.
    pub layer_entries : Element → List (String × Fields)
    layer_entries (Element.element tag own text children) =
        own_entry id_prefix base version tag children ++ entries_below children

    pub entries_below : Elements → List (String × Fields)
    entries_below Elements.nil = []
    entries_below (Elements.cons el els) = layer_entries el ++ entries_below els

abbrev pub version_of : Element → String
version_of (Element.element tag version text children) = elim version [
  | none ↦ "1.3.0"
  | some v ↦ v
]
