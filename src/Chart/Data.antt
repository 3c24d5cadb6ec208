-- ===== src/Chart/Data.antt =====
-- The data contract of a chart (unrender/schema/chart_schema.py). A float is a value of a type `F`.
use unrender.Base.{String, Option, List}

pub record Axis : Type 0 where
  pub label : Option String
  pub unit : Option String

-- `str | float`
pub data Position (F : Type 0) : Type 0 where
  category : String → Position F
  coordinate : F → Position F

pub record Point (F : Type 0) : Type 0 where
  pub x : Position F
  pub y : F

pub record Series (F : Type 0) : Type 0 where
  pub name : Option String
  pub points : List (Point F)

pub record ChartData (F : Type 0) : Type 0 where
  pub chart_type : String
  pub title : Option String
  pub x_axis : Axis
  pub y_axis : Axis
  pub series : List (Series F)
